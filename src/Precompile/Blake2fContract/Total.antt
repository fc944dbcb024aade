-- ===== src/Precompile/Blake2fContract/Total.antt =====
-- The BLAKE2 contract answers every input: with an error for a wrong length or flag, and else with
-- 64 bytes.
use evm_executor_rs.Base.{
  ℕ, zero, suc, ◌+◌, ◌-◌, ◌*◌, ◌^◌, ◌≤◌, ◌<◌, ◌≡◌, ◌≢◌, ◌⊎◌, inl, inr, refl, Bool, true, false,
  Bool-cases, some, List, [], ◌∷◌, arith, length, length-append, get_elem?, ◌==◌, ==_iff, err, take,
  drop,
}
use evm_executor_rs.Base.Options.Results.{◌>>=◌}
use evm_executor_rs.Base.Bytes.{
  All, All-append, All-take, All-drop, IsByte, slice_within, length-slice, be_value, le_value,
  le_value_bound, le_bytes, length-le_bytes, le_bytes-IsByte,
}
use evm_executor_rs.External.Traits.{Bytes}
use evm_executor_rs.Precompile.Contract.{PrecompileResult, returned_bytes, exit_error}
use evm_executor_rs.Precompile.Blake2f.Total.{IsWord, Makes, compress-Makes, elem_within}
use evm_executor_rs.Precompile.Blake2fContract.{
  rounds_of, read_word, read_words, flag_of, words_bytes, blake2f_compress, blake2f_run,
}

module _ (input : Bytes) (bytes : All IsByte input) where
  read_word_within :
      (pos : ℕ) → pos + 8 ≤ length input → (x : ℕ) × (read_word input pos ≡ some x) × IsWord x
  unfolding read_word
  read_word_within pos h =
      let word = take (pos + 8 - pos) (drop pos input) in
      let size : length word ≡ 8 =
        omega (arith, length-slice input pos (pos + 8) (omega arith) h) in
      let p = All-take IsByte (pos + 8 - pos) (drop pos input) (All-drop IsByte pos input bytes) in
      let bound : le_value word < 256 ^ 8 = rw size at (le_value_bound word p) in
      (
        le_value word,
        rw (slice_within input pos (pos + 8) (omega arith) h) refl,
        omega (arith, bound),
      )

  read_words-Makes : (n pos : ℕ) → pos + 8 * n ≤ length input → Makes n (read_words n input pos)
  unfolding read_words
  read_words-Makes zero pos h = record {
    vec = [];
    made = refl;
    are_words = record { size = refl; words = tt };
  }
  read_words-Makes (suc n) pos h =
      let (x, e, p) = read_word_within pos (omega arith) in
      let rest = read_words-Makes n (pos + 8) (omega arith) in
      record {
        vec = x ∷ rest.vec;
        made = rw (e, rest.made) refl;
        are_words = record {
          size = omega (arith, rest.are_words.size);
          words = (p, rest.are_words.words);
        };
      }

  rounds_within : 4 ≤ length input → (r : ℕ) × (rounds_of input ≡ some r)
  unfolding rounds_of
  rounds_within h =
      (be_value (take (4 - 0) (drop 0 input)), rw (slice_within input 0 4 (omega arith) h) refl)

length-words_bytes : (hs : List ℕ) → length (words_bytes hs) ≡ 8 * length hs
unfolding words_bytes
length-words_bytes [] = omega arith
length-words_bytes (h ∷ hs) = omega (
  arith,
  length-append (le_bytes 8 h) (words_bytes hs),
  length-le_bytes 8 h,
  length-words_bytes hs,
)

words_bytes-IsByte : (hs : List ℕ) → All IsByte (words_bytes hs)
unfolding words_bytes
words_bytes-IsByte [] = tt
words_bytes-IsByte (h ∷ hs) =
    All-append IsByte (le_bytes 8 h) (words_bytes hs) (le_bytes-IsByte 8 h) (words_bytes-IsByte hs)

-- A result of 64 bytes.
abbrev pub IsDigest : PrecompileResult → Type 0
IsDigest r = (out : Bytes) × (r ≡ returned_bytes out) × (length out ≡ 64) × All IsByte out

blake2f_compress-IsDigest :
    (input : Bytes) (f : Bool)
    → All IsByte input
    → length input ≡ 213
    → IsDigest (blake2f_compress input f)
unfolding blake2f_compress
blake2f_compress-IsDigest input f bytes size =
    let (r, er) = rounds_within input bytes (omega (arith, size)) in
    let h = read_words-Makes input bytes 8 4 (omega (arith, size)) in
    let m = read_words-Makes input bytes 16 68 (omega (arith, size)) in
    let (t0, e0, p0) = read_word_within input bytes 196 (omega (arith, size)) in
    let (t1, e1, p1) = read_word_within input bytes 204 (omega (arith, size)) in
    let out = compress-Makes h.vec m.vec t0 t1 f r h.are_words m.are_words p0 p1 in
    (
      words_bytes out.vec,
      rw (er, h.made, m.made, e0, e1, out.made) refl,
      omega (arith, length-words_bytes out.vec, out.are_words.size),
      words_bytes-IsByte out.vec,
    )

-- The check of the flag byte.
flag_run :
    (input : Bytes) (flag : ℕ)
    → All IsByte input
    → length input ≡ 213
    → ((1 < flag)
        × ((flag_of (some flag) >>= λ f. blake2f_compress input f)
            ≡ err (exit_error "Invalid input for blake2f precompile: incorrect final flag")))
      ⊎ ((flag ≤ 1) × IsDigest (flag_of (some flag) >>= λ f. blake2f_compress input f))
unfolding flag_of exit_error
flag_run input flag bytes size = elim (Bool-cases (flag == 1)) [
  | inl one ↦
      rw one (
        inr (omega (arith, (==_iff flag 1).0 one), blake2f_compress-IsDigest input true bytes size))
  | inr other ↦ rw other (elim (Bool-cases (flag == 0)) [
    | inl z ↦
        rw z (
          inr
            (omega (arith, (==_iff flag 0).0 z), blake2f_compress-IsDigest input false bytes size))
    | inr more ↦ rw more (inl (ground (arith, other, more), refl))
  ])
]

-- For any bytes the contract ends without a panic: with the error on the length if there are not
-- 213 of them, with the error on the flag if the last one is larger than 1, and else with 64 bytes,
-- whatever the number of rounds is.
pub blake2f_run_total :
    (input : Bytes)
    → All IsByte input
    → ((length input ≢ 213)
        × (blake2f_run input
            ≡ err (exit_error "Invalid input for blake2f precompile: incorrect length")))
      ⊎ (((length input ≡ 213)
            × (flag : ℕ) × (get_elem? input 212 ≡ some flag)
            × (1 < flag)
            × (blake2f_run input
                ≡ err (exit_error "Invalid input for blake2f precompile: incorrect final flag")))
          ⊎ ((length input ≡ 213)
              × (flag : ℕ) × (get_elem? input 212 ≡ some flag)
              × (flag ≤ 1)
              × IsDigest (blake2f_run input)))
unfolding blake2f_run
blake2f_run_total input bytes = elim (Bool-cases (length input == 213)) [
  | inr other ↦ rw other (inl (ground (arith, other), refl))
  | inl same ↦
      let size = (==_iff (length input) 213).0 same in
      let (flag, e, _) = elem_within IsByte input 212 bytes (omega (arith, size)) in
      rw (same, e)
        (elim (flag_run input flag bytes size) [
          | inl (more, r) ↦ inr (inl (size, flag, refl, more, r))
          | inr (less, d) ↦ inr (inr (size, flag, refl, less, d))
        ])
]
