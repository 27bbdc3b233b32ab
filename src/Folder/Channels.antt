-- ===== src/Folder/Channels.antt =====
-- The writers of a folder by channel, and what a write reports for a new channel.
use tracebox.Prelude.{
  ◌≡◌, refl, ap, inl, inr, some, [], ◌∷◌, arith, if◌then◌else◌, Bool-cases, subst,
}
use tracebox.Bytes.{Text, text_eq, text_eq_refl, text_eq_sound}
use tracebox.StreamWriter.{StreamWriter}
use tracebox.Folder.{Files, find_writer, put_writer}

-- After a channel's writer is put into the map, looking that channel up finds this writer, and
-- looking any other channel up finds what was there before.
pub find_writer-put_writer :
    (channel other : Text) (w : StreamWriter) (files : Files)
    → find_writer other (put_writer channel w files)
      ≡ (if text_eq channel other then some w else find_writer other files)
unfolding find_writer put_writer
find_writer-put_writer channel other w [] = refl
find_writer-put_writer channel other w ((name, v) ∷ files) =
    elim (Bool-cases (text_eq name channel)) [
      | inl hit ↦
          subst
            (λ c.
              find_writer other (put_writer c w ((name, v) ∷ files))
              ≡ (if text_eq c other then some w else find_writer other ((name, v) ∷ files)))
            (text_eq_sound name channel hit) (ground (arith, text_eq_refl name))
      | inr miss ↦ elim (Bool-cases (text_eq channel other)) [
        | inl same ↦ ground (
          arith,
          find_writer-put_writer channel other w files,
          ap (text_eq name) (text_eq_sound channel other same),
        )
        | inr differ ↦ ground (arith, find_writer-put_writer channel other w files)
      ]
    ]
