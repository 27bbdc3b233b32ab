-- ===== src/TcpSocket/Receiving.antt =====
-- What `readDataWith` returns for a frame, in whatever pieces it arrives.
use tracebox.Prelude.{
  ℕ, zero, suc, ◌+◌, ◌-◌, ◌^◌, ◌<◌, ◌≤◌, ◌≡◌, refl, sym, ap, ◌∙◌, inl, inr, List, [], ◌∷◌, ◌++◌,
  length, take, drop, ◌==◌, if◌then◌else◌, min, arith, append_assoc, take-append-drop, length-drop,
  length-take, length-append, Bool-cases, subst, All, take-append, drop-append, ap₂,
}
use tracebox.Bytes.{Text, le_bytes, of_le_bytes, length-le_bytes, of_le_bytes-le_bytes}
use tracebox.TcpSocket.{
  Reply, moves, interrupted, failed, frame, Loaded, loaded, broken, waiting, in_front, load,
  Received, received, nothing, blocked, payload_of, behind_header, read_data,
}
use tracebox.TcpSocket.Sending.{progress, IsLive}

-- A loop that succeeds has cut exactly its bytes off the wire.
pub data Cuts (need : ℕ) (wire : Text) (l : Loaded) : Type 0 where
  cut :
      (bytes rest : Text) (replies : List Reply)
      → l ≡ loaded bytes rest replies
      → bytes ++ rest ≡ wire
      → length bytes ≡ need
      → Cuts need wire l
  broke : l ≡ broken → Cuts need wire l
  waits : l ≡ waiting → Cuts need wire l

cut_front :
    (n need : ℕ) (wire : Text) (l : Loaded)
    → n ≤ need
    → n ≤ length wire
    → Cuts (need - n) (drop n wire) l
    → Cuts need wire (in_front (take n wire) l)
cut_front n need wire l h w (cut bytes rest replies e s c) =
    cut (take n wire ++ bytes) rest replies (ap (in_front (take n wire)) e)
      (append_assoc (take n wire) bytes rest
        ∙ ap (λ t. take n wire ++ t) s
        ∙ take-append-drop n wire)
      (omega (arith, length-append (take n wire) bytes, length-take n wire, c))
cut_front n need wire l h w (broke e) = broke (ap (in_front (take n wire)) e)
cut_front n need wire l h w (waits e) = waits (ap (in_front (take n wire)) e)

pub load-Cuts :
    (replies : List Reply) (need : ℕ) (wire : Text) → Cuts need wire (load replies need wire)
unfolding load
load-Cuts [] zero wire = cut [] wire [] refl refl refl
load-Cuts (r ∷ replies) zero wire = cut [] wire (r ∷ replies) refl refl refl
load-Cuts [] (suc need) wire = waits refl
load-Cuts (moves k ∷ replies) (suc need) wire = elim (Bool-cases (n == 0)) [
  | inl none_moved ↦
      subst (λ t. Cuts (suc need) wire (if t then broken else more)) (sym none_moved) (broke refl)
  | inr some_moved ↦
      subst (λ t. Cuts (suc need) wire (if t then broken else more)) (sym some_moved)
        (cut_front n (suc need) wire _ (omega arith) (omega arith)
          (load-Cuts replies (suc need - n) (drop n wire)))
]
  where
    n : ℕ
    n = min k (min (suc need) (length wire))

    more : Loaded
    more = in_front (take n wire) (load replies (suc need - n) (drop n wire))
load-Cuts (interrupted ∷ replies) (suc need) wire = load-Cuts replies (suc need) wire
load-Cuts (failed ∷ replies) (suc need) wire = broke refl

same_front :
    (n : ℕ) (a b x y : Text) → length a ≡ n → length b ≡ n → a ++ x ≡ b ++ y → (a ≡ b) × (x ≡ y)
same_front n a b x y ea eb e = (
  sym (take-append n a x ea) ∙ ap (take n) e ∙ take-append n b y eb,
  sym (drop-append n a x ea) ∙ ap (drop n) e ∙ drop-append n b y eb,
)

-- What `readDataWith` may return for a frame that `more` follows.
pub data Receives (payload more : Text) (r : Received) : Type 0 where
  whole : (replies : List Reply) → r ≡ received payload more replies → Receives payload more r
  none_of_it : r ≡ nothing → Receives payload more r
  not_yet : r ≡ blocked → Receives payload more r

payload-Receives :
    (replies : List Reply) (payload more : Text)
    → Receives payload more (payload_of (load replies (length payload) (payload ++ more)))
payload-Receives replies payload more =
    by_cut (load-Cuts replies (length payload) (payload ++ more))
  where
    by_cut :
        Cuts (length payload) (payload ++ more) (load replies (length payload) (payload ++ more))
        → Receives payload more (payload_of (load replies (length payload) (payload ++ more)))
    by_cut (cut bytes rest replies' e s c) =
        let both = same_front (length payload) bytes payload rest more c refl s in
        whole replies' (ap payload_of e ∙ ap₂ (λ b r. received b r replies') both.0 both.1)
    by_cut (broke e) = none_of_it (ap payload_of e)
    by_cut (waits e) = not_yet (ap payload_of e)

-- However the frame of a payload below 4 GiB is cut into pieces, `readDataWith` returns that
-- payload and leaves the bytes behind the frame on the wire; or it reports an error; or it still
-- waits.
pub read_data-frame :
    (replies : List Reply) (payload more : Text)
    → length payload < 2 ^ 32
    → Receives payload more (read_data replies (frame payload ++ more))
unfolding read_data frame
read_data-frame replies payload more small = by_cut (load-Cuts replies 4 (frame payload ++ more))
  where
    by_cut :
        Cuts 4 (frame payload ++ more) (load replies 4 (frame payload ++ more))
        → Receives payload more (read_data replies (frame payload ++ more))
    by_cut (cut header rest replies' e s c) =
        let both =
          same_front 4 header (le_bytes 4 (length payload)) rest (payload ++ more) c
            (length-le_bytes 4 (length payload))
            (s ∙ append_assoc (le_bytes 4 (length payload)) payload more) in
        let size = ap of_le_bytes both.0 ∙ of_le_bytes-le_bytes 4 (length payload) small in
        subst (Receives payload more)
          (sym (ap behind_header e ∙ ap₂ (λ (n : ℕ) t. payload_of (load replies' n t)) size both.1))
          (payload-Receives replies' payload more)
    by_cut (broke e) = none_of_it (ap behind_header e)
    by_cut (waits e) = not_yet (ap behind_header e)

-- A loop on a live connection ends, and leaves the calls that it did not need.
record Completes (replies : List Reply) (need : ℕ) (l : Loaded) : Type 0 where
  bytes : Text
  rest : Text
  calls : List Reply
  result : l ≡ loaded bytes rest calls
  live : All IsLive calls
  left : progress replies ≤ progress calls + need

Completes-front :
    (k need m : ℕ) (replies : List Reply) (front : Text) (l : Loaded)
    → Completes replies m l
    → 0 < k
    → m + 1 ≤ need
    → Completes (moves k ∷ replies) need (in_front front l)
unfolding progress
Completes-front zero need m replies front l c h le = absurd (omega arith)
Completes-front (suc k) need m replies front l c h le = record {
  bytes = front ++ c.bytes;
  rest = c.rest;
  calls = c.calls;
  result = ap (in_front front) c.result;
  live = c.live;
  left = omega (arith, c.left);
}

load-Completes :
    (replies : List Reply) (need : ℕ) (wire : Text)
    → All IsLive replies
    → need ≤ progress replies
    → need ≤ length wire
    → Completes replies need (load replies need wire)
unfolding load progress
load-Completes [] zero wire live h w = record {
  bytes = [];
  rest = wire;
  calls = [];
  result = refl;
  live = tt;
  left = omega arith;
}
load-Completes (r ∷ replies) zero wire live h w = record {
  bytes = [];
  rest = wire;
  calls = r ∷ replies;
  result = refl;
  live = live;
  left = omega arith;
}
load-Completes [] (suc need) wire live h w = absurd (omega arith)
load-Completes (moves zero ∷ replies) (suc need) wire live h w = absurd (omega (arith, live.0))
load-Completes (moves (suc k) ∷ replies) (suc need) wire live h w = elim (Bool-cases (n == 0)) [
  | inl none_moved ↦ absurd (ground arith)
  | inr some_moved ↦
      subst (λ t. Completes (moves (suc k) ∷ replies) (suc need) (if t then broken else more))
        (sym some_moved)
        (Completes-front (suc k) (suc need) (suc need - n) replies (take n wire) _
          (load-Completes replies (suc need - n) (drop n wire) live.1 (omega arith)
            (omega (arith, length-drop n wire)))
          (omega arith) (omega arith))
]
  where
    n : ℕ
    n = min (suc k) (min (suc need) (length wire))

    more : Loaded
    more = in_front (take n wire) (load replies (suc need - n) (drop n wire))
load-Completes (interrupted ∷ replies) (suc need) wire live h w =
    let c = load-Completes replies (suc need) wire live.1 h w in
    record {
      bytes = c.bytes;
      rest = c.rest;
      calls = c.calls;
      result = c.result;
      live = c.live;
      left = c.left;
    }
load-Completes (failed ∷ replies) (suc need) wire live h w = absurd live.0

-- Both together: the loop ends with the front of the wire.
load-front :
    (replies : List Reply) (need : ℕ) (front more : Text)
    → length front ≡ need
    → All IsLive replies
    → need ≤ progress replies
    → (calls : List Reply) × (load replies need (front ++ more) ≡ loaded front more calls)
      × All IsLive calls
      × (progress replies ≤ progress calls + need)
load-front replies need front more e live h =
    let c =
      load-Completes replies need (front ++ more) live h
        (omega (arith, e, length-append front more)) in
    let both = by_cut c.bytes c.rest c.calls c.result (load-Cuts replies need (front ++ more)) in
    (c.calls, c.result ∙ ap₂ (λ b r. loaded b r c.calls) both.0 both.1, c.live, c.left)
  where
    by_cut :
        (bytes rest : Text) (calls : List Reply)
        → load replies need (front ++ more) ≡ loaded bytes rest calls
        → Cuts need (front ++ more) (load replies need (front ++ more))
        → (bytes ≡ front) × (rest ≡ more)
    by_cut bytes rest calls l (cut bytes' rest' calls' l' s c) =
        let both = same_front need bytes' front rest' more c e s in (cc both.0, cc both.1)
    by_cut bytes rest calls l (broke l') = cc
    by_cut bytes rest calls l (waits l') = cc

-- For a payload below 4 GiB, on a connection where no call fails and at least as many calls move
-- something as the frame has bytes, `readDataWith` returns the payload of the frame on the wire and
-- leaves what follows it.
pub read_data-completes :
    (replies : List Reply) (payload more : Text)
    → length payload < 2 ^ 32
    → All IsLive replies
    → 4 + length payload ≤ progress replies
    → (calls : List Reply) × (read_data replies (frame payload ++ more)
        ≡ received payload more calls)
unfolding read_data frame
read_data-completes replies payload more small live h =
    let header =
      load-front replies 4 (le_bytes 4 (length payload)) (payload ++ more)
        (length-le_bytes 4 (length payload)) live (omega arith) in
    let body =
      load-front header.0 (length payload) payload more refl header.2 (omega (arith, header.3)) in
    (
      body.0,
      ap (λ w. behind_header (load replies 4 w))
            (append_assoc (le_bytes 4 (length payload)) payload more)
          ∙ ap behind_header header.1
          ∙ ap (λ (n : ℕ). payload_of (load header.0 n (payload ++ more)))
              (of_le_bytes-le_bytes 4 (length payload) small)
          ∙ ap payload_of body.1,
    )
