-- ===== src/TcpSocket/Sending.antt =====
-- What `sendDataWith` puts on the wire, and when it succeeds.
use tracebox.Prelude.{
  ℕ, zero, suc, ◌-◌, ◌^◌, ◌<◌, ◌≤◌, ◌≡◌, ◌≢◌, refl, sym, ap, ◌∙◌, Bool, true, false, inl, inr,
  Option, some, List, [], ◌∷◌, ◌++◌, length, take, drop, ltb, ◌==◌, if◌then◌else◌, min, arith,
  append_assoc, take-append-drop, length-drop, Bool-cases, subst, All, ◌%◌,
}
use tracebox.Bytes.{Text, le_bytes}
use tracebox.TcpSocket.{Reply, moves, interrupted, failed, frame, send_loop, send_data}

-- A result of sending `bytes`: all of them for success, less than all otherwise.
pub data Sends (bytes : Text) (r : Text × Option Bool) : Type 0 where
  complete : r.1 ≡ some true → r.0 ≡ bytes → Sends bytes r
  partial : (b : ℕ) (rest : Text) → r.1 ≢ some true → r.0 ++ (b ∷ rest) ≡ bytes → Sends bytes r

chunk :
    (n : ℕ) (bytes : Text) (r : Text × Option Bool)
    → Sends (drop n bytes) r
    → Sends bytes (take n bytes ++ r.0, r.1)
chunk n bytes r (complete e all) =
    complete e (ap (λ t. take n bytes ++ t) all ∙ take-append-drop n bytes)
chunk n bytes r (partial b rest e some_of) = partial b rest e (
    append_assoc (take n bytes) r.0 (b ∷ rest)
    ∙ ap (λ t. take n bytes ++ t) some_of
    ∙ take-append-drop n bytes)

-- Whatever the socket answers, the bytes on the wire are a prefix of the buffer, and the whole
-- buffer exactly if the loop reports success.
pub send_loop-Sends : (replies : List Reply) (bytes : Text) → Sends bytes (send_loop replies bytes)
unfolding send_loop
send_loop-Sends [] [] = complete refl refl
send_loop-Sends (r ∷ replies) [] = complete refl refl
send_loop-Sends [] (b ∷ bs) = partial b bs (λ e. cc) refl
send_loop-Sends (moves k ∷ replies) (b ∷ bs) = elim (Bool-cases (min k (suc (length bs)) == 0)) [
  | inl none_moved ↦
      subst (λ t. Sends (b ∷ bs) (if t then ([], some false) else moved)) (sym none_moved)
        (partial b bs (λ e. cc) refl)
  | inr some_moved ↦
      subst (λ t. Sends (b ∷ bs) (if t then ([], some false) else moved)) (sym some_moved)
        (chunk (min k (suc (length bs))) (b ∷ bs) _
          (send_loop-Sends replies (drop (min k (suc (length bs))) (b ∷ bs))))
]
  where
    moved : Text × Option Bool
    moved =
        let (taken, result) = send_loop replies (drop (min k (suc (length bs))) (b ∷ bs)) in
        (take (min k (suc (length bs))) (b ∷ bs) ++ taken, result)
send_loop-Sends (interrupted ∷ replies) (b ∷ bs) = send_loop-Sends replies (b ∷ bs)
send_loop-Sends (failed ∷ replies) (b ∷ bs) = partial b bs (λ e. cc) refl

frame-unsent : (payload : Text) → Sends (frame payload) ([], some false)
unfolding frame le_bytes
frame-unsent payload = partial (length payload % 256) _ (λ e. cc) refl

-- Whatever the socket answers, `sendDataWith` either reports success and has put the whole frame on
-- the wire, or does not report success and has put a proper prefix of the frame on it.
pub send_data-Sends :
    (replies : List Reply) (payload : Text) → Sends (frame payload) (send_data replies payload)
unfolding send_data
send_data-Sends replies payload = elim (Bool-cases (ltb (2 ^ 32 - 1) (length payload))) [
  | inl large ↦
      subst
        (λ t.
          Sends (frame payload) (if t then ([], some false) else send_loop replies (frame payload)))
        (sym large) unsent
  | inr small ↦
      subst
        (λ t.
          Sends (frame payload) (if t then ([], some false) else send_loop replies (frame payload)))
        (sym small) (send_loop-Sends replies (frame payload))
]
  where
    unsent : Sends (frame payload) ([], some false)
    unsent = frame-unsent payload

-- The number of calls that move something.
unfoldable pub progress : List Reply → ℕ
progress [] = 0
progress (moves zero ∷ replies) = progress replies
progress (moves (suc k) ∷ replies) = suc (progress replies)
progress (interrupted ∷ replies) = progress replies
progress (failed ∷ replies) = progress replies

-- No call fails or finds the connection closed.
abbrev pub IsLive : Reply → Type 0
IsLive (moves k) = 0 < k
IsLive interrupted = Unit
IsLive failed = ⊥

-- Where no call fails and at least as many calls move something as the buffer has bytes, the
-- sending loop reports success, however often it is interrupted and however short the counts are.
pub send_loop-completes :
    (replies : List Reply) (bytes : Text)
    → All IsLive replies
    → length bytes ≤ progress replies
    → (send_loop replies bytes).1 ≡ some true
unfolding send_loop progress
send_loop-completes [] [] live h = refl
send_loop-completes (r ∷ replies) [] live h = refl
send_loop-completes [] (b ∷ bs) live h = absurd (omega arith)
send_loop-completes (moves zero ∷ replies) (b ∷ bs) live h = absurd (omega arith)
send_loop-completes (moves (suc k) ∷ replies) (b ∷ bs) live h = ground (
  arith,
  send_loop-completes replies (drop (min (suc k) (suc (length bs))) (b ∷ bs)) live.1,
  length-drop (min (suc k) (suc (length bs))) (b ∷ bs),
)
send_loop-completes (interrupted ∷ replies) (b ∷ bs) live h =
    send_loop-completes replies (b ∷ bs) live.1 h
send_loop-completes (failed ∷ replies) (b ∷ bs) live h = absurd live.0
