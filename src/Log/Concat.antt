-- ===== src/Log/Concat.antt =====
-- The size of the buffer in `concat` and `concat_til_null` of src/log/log.c.
use event_driven_tcp_chatroo.Base.{
  ℕ, ◌+◌, ◌<◌, Bool, true, false, inl, inr, Option, none, some, List, [], ◌∷◌, ◌++◌, Bytes, ◌≡◌,
  refl, ap, ◌∙◌, Bool-cases, length, length-append, append_assoc, map, leb, leb_gt, append-nil,
  if◌then◌else◌, arith,
}
use event_driven_tcp_chatroo.Log.{
  Joined, text, undefined, fits, strcat, concat_loop, concat, til_null_loop, concat_til_null,
}

-- The words with a space before each.
unfoldable pub spaced : List Bytes → Bytes
spaced [] = []
spaced (w ∷ words) = b' ' ∷ (w ++ spaced words)

gt_of_leb : (a b : ℕ) → leb a b ≡ false → b < a
gt_of_leb a b h = ground arith

strcat_fits :
    (max_len : ℕ) (t s : Bytes) → strcat max_len (fits max_len t) s ≡ fits max_len (t ++ s)
strcat_fits max_len t s = elim (Bool-cases (leb (length t + 1) max_len)) [
  | inl e ↦ rw e
  | inr e ↦ rw (
    e,
    leb_gt (length (t ++ s) + 1) max_len
        (omega (arith, gt_of_leb (length t + 1) max_len e, length-append t s)),
  )
]

concat_loop_lem :
    (max_len : ℕ) (words : List Bytes) (t : Bytes)
    → concat_loop max_len (length words) words (fits max_len t) ≡ fits max_len (t ++ spaced words)
unfolding concat_loop spaced
concat_loop_lem max_len [] t = rw (append-nil t)
concat_loop_lem max_len (w ∷ words) t =
    ap (concat_loop max_len (length words) words) (
      ap (λ r. strcat max_len r w) (strcat_fits max_len t (b' ' ∷ []))
      ∙ strcat_fits max_len (t ++ b' ' ∷ []) w)
    ∙ (concat_loop_lem max_len words ((t ++ b' ' ∷ []) ++ w)
        ∙ ap (fits max_len) (
            append_assoc (t ++ b' ' ∷ []) w (spaced words)
            ∙ append_assoc t (b' ' ∷ []) (w ++ spaced words)))

-- If the buffer is allocated and there is a word, then `concat` of all words gives the words with a
-- space between each two, if that text with its final zero fits into the buffer, and writes past
-- the end of the buffer otherwise.
pub concat_lem :
    (w : Bytes) (words : List Bytes) (max_len : ℕ)
    → concat true (w ∷ words) (length (w ∷ words)) max_len ≡ (
        if leb (length (w ++ spaced words) + 1) max_len
        then text (w ++ spaced words)
        else undefined)
unfolding concat
concat_lem w words max_len = concat_loop_lem max_len words w

til_null_loop_lem :
    (max_len : ℕ) (words : List Bytes) (rest : List (Option Bytes)) (res : Joined)
    → til_null_loop max_len (map some words ++ none ∷ rest) res
      ≡ concat_loop max_len (length words) words res
unfolding til_null_loop concat_loop
til_null_loop_lem max_len [] rest res = refl
til_null_loop_lem max_len (w ∷ words) rest res = til_null_loop_lem max_len words rest _

-- Up to its null pointer, the list of words of `concat_til_null` is joined as by `concat`.
pub concat_til_null-eq-concat :
    (allocated : Bool) (words : List Bytes) (rest : List (Option Bytes)) (max_len : ℕ)
    → concat_til_null allocated (map some words ++ none ∷ rest) max_len
      ≡ concat allocated words (length words) max_len
unfolding concat_til_null concat
concat_til_null-eq-concat allocated [] rest max_len = refl
concat_til_null-eq-concat allocated (w ∷ words) rest max_len =
    rw (til_null_loop_lem max_len words rest (fits max_len w))
