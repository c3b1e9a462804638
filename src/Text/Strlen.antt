-- ===== src/Text/Strlen.antt =====
-- `strlen` on texts, and on memory with no end of a text.
use koko_os.Prelude.{
  ℕ, zero, suc, ◌+◌, ◌<◌, ◌^◌, ◌%◌, ◌≡◌, ◌≢◌, refl, List, [], ◌∷◌, ◌∙◌, ap, arith, length, done,
  hang, ◌==◌, false,
}
use koko_os.Ram.{Ram}
use koko_os.Text.{strlen_loop, strlen}
use koko_os.Text.View.{IsText}

module _ (ram : Ram) (str : ℕ) where
  strlen_loop-stop : (n len : ℕ) → ram (str + len) ≡ 0 → strlen_loop (suc n) ram str len ≡ done len
  unfolding strlen_loop
  strlen_loop-stop n len h = rw (h, strlen_loop)

  strlen_loop-step :
      (n len : ℕ)
      → ram (str + len) ≢ 0
      → strlen_loop (suc n) ram str len ≡ strlen_loop n ram str ((len + 1) % 2 ^ 16)
  unfolding strlen_loop
  strlen_loop-step n len h =
      let e : (ram (str + len) == 0) ≡ false = ground arith in rw (e, strlen_loop)

  strlen_loop-length :
      (s : List ℕ) (n len p : ℕ)
      → p ≡ str + len
      → IsText ram p s
      → length s < n
      → len + length s < 2 ^ 16
      → strlen_loop n ram str len ≡ done (len + length s)
  strlen_loop-length s zero len p e t fuel short = absurd (omega arith)
  strlen_loop-length [] (suc n) len p e t fuel short =
      strlen_loop-stop n len (ground arith) ∙ ap done (omega arith)
  strlen_loop-length (c ∷ s) (suc n) len p e t fuel short =
      let next : (len + 1) % 2 ^ 16 ≡ len + 1 = omega arith in
      strlen_loop-step n len (ground arith)
      ∙ ap (strlen_loop n ram str) next
      ∙ strlen_loop-length s n (len + 1) (p + 1) (omega arith) t.2 (omega arith) (omega arith)
      ∙ ap done (omega arith)

  -- `strlen` of a text of less than 65536 bytes is its length.
  pub strlen-length :
      (s : List ℕ) → IsText ram str s → length s < 2 ^ 16 → strlen ram str ≡ done (length s)
  unfolding strlen
  strlen-length s t short =
      strlen_loop-length s (2 ^ 16) 0 str (omega arith) t (omega arith) (omega arith)
      ∙ ap done (omega arith)

  -- If none of the first 65536 bytes is zero, the loop of `strlen` does not end from any counter
  -- below 65536, whatever its fuel.
  pub strlen_loop-hang :
      ((k : ℕ) → k < 2 ^ 16 → ram (str + k) ≢ 0)
      → (n len : ℕ) → len < 2 ^ 16
      → strlen_loop n ram str len ≡ hang
  strlen_loop-hang long zero len h = unfold strlen_loop in refl
  strlen_loop-hang long (suc n) len h =
      strlen_loop-step n len (long len h)
      ∙ strlen_loop-hang long n ((len + 1) % 2 ^ 16) (omega arith)
