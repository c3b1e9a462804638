-- ===== src/Text/Compare.antt =====
-- `str_cmp` and `str_icmp` as an order on texts: the shorter first, and then byte by byte.
use mathlib.Core.List.{map}
use mathlib.Core.Path.{ap₂}
use koko_os.Prelude.{
  ℕ, zero, suc, ◌+◌, ◌<◌, ◌^◌, ◌%◌, ◌≡◌, ◌↔◌, refl, List, [], ◌∷◌, ◌∙◌, sym, ap, arith, length,
  done, ltb, leb, ◌&&◌, if◌then◌else◌, ℤ, pos, negsuc, minus, Bool-cases, inl, inr,
}
use koko_os.Ram.{Ram}
use koko_os.Text.{char_lt, str_to_lower, cmp_loop, cmp_with, str_cmp, str_icmp}
use koko_os.Text.View.{IsText, AllBytes}
use koko_os.Text.Strlen.{strlen-length}

-- Small letters for capitals, and every other byte as it is.
pub fold_case : ℕ → ℕ
fold_case c = if leb 65 c && leb c 90 then c + 32 else c

-- The order of two texts of one length.
pub lex : (key : ℕ → ℕ) → List ℕ → List ℕ → ℤ
lex key [] t = pos 0
lex key (a ∷ s) [] = pos 0
lex key (a ∷ s) (b ∷ t) =
    if char_lt (key b) (key a)
    then pos 1
    else if char_lt (key a) (key b)
    then minus 1
    else lex key s t

-- The order of two texts.
pub text_order : (key : ℕ → ℕ) → List ℕ → List ℕ → ℤ
text_order key s t =
    if ltb (length t) (length s)
    then pos 1
    else if ltb (length s) (length t)
    then minus 1
    else lex key s t

pub negate : ℤ → ℤ
negate (pos zero) = pos 0
negate (pos (suc n)) = negsuc n
negate (negsuc n) = pos (suc n)

-- `str_to_lower` moves more than capitals, but it joins two bytes just where folding the case does.
pub str_to_lower-eq :
    (a b : ℕ) → a < 256 → b < 256 → (str_to_lower a ≡ str_to_lower b) ↔ (fold_case a ≡ fold_case b)
unfolding str_to_lower fold_case
str_to_lower-eq a b ha hb = (λ h. ground arith, λ h. ground arith)

-- `str_to_lower` keeps the small letters, and moves every other byte by 32, the capitals and the
-- bytes that are no letters alike.
pub str_to_lower_lem :
    (c : ℕ) → c < 256 → str_to_lower c ≡ (if leb 97 c && leb c 122 then c else (c + 32) % 256)
unfolding str_to_lower
str_to_lower_lem c h = ground arith

lex_self : (key : ℕ → ℕ) (s : List ℕ) → lex key s s ≡ pos 0
unfolding lex
lex_self key [] = refl
lex_self key (a ∷ s) = ground (arith, lex_self key s)

negate-lex : (key : ℕ → ℕ) (s t : List ℕ) → length s ≡ length t → negate (lex key s t) ≡ lex key t s
unfolding lex negate
negate-lex key [] [] h = refl
negate-lex key [] (b ∷ t) h = absurd (omega arith)
negate-lex key (a ∷ s) [] h = absurd (omega arith)
negate-lex key (a ∷ s) (b ∷ t) h = ground (arith, negate-lex key s t (omega arith))

negate-text_order : (key : ℕ → ℕ) (s t : List ℕ) → negate (text_order key s t) ≡ text_order key t s
unfolding text_order negate
negate-text_order key s t = ground (arith, negate-lex key s t)

module _ (key : ℕ → ℕ) (ram : Ram) (str1 str2 : ℕ) where
  cmp_loop-lex :
      (s t : List ℕ) (i p q : ℕ)
      → p ≡ str1 + i
      → q ≡ str2 + i
      → IsText ram p s
      → IsText ram q t
      → length s ≡ length t
      → cmp_loop key (length s) ram str1 str2 i ≡ lex key s t
  unfolding cmp_loop lex
  cmp_loop-lex [] t i p q ep eq ts tt' same = refl
  cmp_loop-lex (a ∷ s) [] i p q ep eq ts tt' same = absurd (omega arith)
  cmp_loop-lex (a ∷ s) (b ∷ t) i p q ep eq ts tt' same =
      let ea : ram (str1 + i) ≡ a = ap ram (sym ep) ∙ ts.0 in
      let eb : ram (str2 + i) ≡ b = ap ram (sym eq) ∙ tt'.0 in
      let rest =
        cmp_loop-lex s t (i + 1) (p + 1) (q + 1) (omega arith) (omega arith) ts.2 tt'.2
          (omega arith) in
      rw (ea, eb, rest)

  cmp_with-text_order :
      (s t : List ℕ)
      → IsText ram str1 s
      → IsText ram str2 t
      → length s < 2 ^ 16
      → length t < 2 ^ 16
      → cmp_with key ram str1 str2 ≡ done (text_order key s t)
  unfolding cmp_with text_order
  cmp_with-text_order s t ts tt' hs ht =
      rw (strlen-length ram str1 s ts hs, strlen-length ram str2 t tt' ht)
        (elim (Bool-cases (ltb (length t) (length s))) [
          | inl longer ↦ rw longer
          | inr more ↦ elim (Bool-cases (ltb (length s) (length t))) [
            | inl shorter ↦ rw (more, shorter)
            | inr same ↦
                rw (more, same)
                  (ap done (
                    cmp_loop-lex s t 0 str1 str2 (omega arith) (omega arith) ts tt' (ground arith)))
          ]
        ])

lex-eq_map :
    (key : ℕ → ℕ) (s t : List ℕ)
    → ((c : ℕ) → c < 256 → key c < 256)
    → AllBytes s
    → AllBytes t
    → length s ≡ length t
    → lex key s t ≡ pos 0
    → map key s ≡ map key t
unfolding lex
lex-eq_map key [] [] small bs bt h e = refl
lex-eq_map key [] (b ∷ t) small bs bt h e = absurd (omega arith)
lex-eq_map key (a ∷ s) [] small bs bt h e = absurd (omega arith)
lex-eq_map key (a ∷ s) (b ∷ t) small (ba, bs) (bb, bt) h e =
    ground (arith, small a ba, small b bb, lex-eq_map key s t small bs bt (omega arith))

-- The keys alone decide the order.
lex-map : (key : ℕ → ℕ) (s t : List ℕ) → lex key s t ≡ lex (λ c. c) (map key s) (map key t)
unfolding lex
lex-map key [] t = refl
lex-map key (a ∷ s) [] = refl
lex-map key (a ∷ s) (b ∷ t) = ground (arith, lex-map key s t)

length-map_key : (key : ℕ → ℕ) (s : List ℕ) → length (map key s) ≡ length s
length-map_key key [] = refl
length-map_key key (c ∷ s) = ap suc (length-map_key key s)

text_order-eq_map :
    (key : ℕ → ℕ) (s t : List ℕ)
    → ((c : ℕ) → c < 256 → key c < 256)
    → AllBytes s
    → AllBytes t
    → (text_order key s t ≡ pos 0) ↔ (map key s ≡ map key t)
unfolding text_order
text_order-eq_map key s t small bs bt = (there, back)
  where
    there : text_order key s t ≡ pos 0 → map key s ≡ map key t
    there e =
        let same : length s ≡ length t = ground arith in
        lex-eq_map key s t small bs bt same (ground arith)

    back : map key s ≡ map key t → text_order key s t ≡ pos 0
    back e =
        let same : length s ≡ length t =
          sym (length-map_key key s) ∙ ap length e ∙ length-map_key key t in
        let zero_lex : lex key s t ≡ pos 0 =
          lex-map key s t
          ∙ ap (λ u. lex (λ c. c) u (map key t)) e
          ∙ lex_self (λ c. c) (map key t) in
        ground arith

map-key_id : (s : List ℕ) → map (λ c. c) s ≡ s
map-key_id [] = refl
map-key_id (c ∷ s) = ap (◌∷◌ c) (map-key_id s)

map-str_to_lower :
    (s t : List ℕ)
    → AllBytes s
    → AllBytes t
    → (map str_to_lower s ≡ map str_to_lower t) ↔ (map fold_case s ≡ map fold_case t)
map-str_to_lower [] [] bs bt = (λ e. refl, λ e. refl)
map-str_to_lower [] (b ∷ t) bs bt = (λ e. absurd (cc), λ e. absurd (cc))
map-str_to_lower (a ∷ s) [] bs bt = (λ e. absurd (cc), λ e. absurd (cc))
map-str_to_lower (a ∷ s) (b ∷ t) (ba, bs) (bb, bt) =
    let heads = str_to_lower-eq a b ba bb in
    let tails = map-str_to_lower s t bs bt in
    (λ e. ap₂ ◌∷◌ (heads.0 (cc)) (tails.0 (cc)), λ e. ap₂ ◌∷◌ (heads.1 (cc)) (tails.1 (cc)))

str_to_lower-lt : (c : ℕ) → c < 256 → str_to_lower c < 256
unfolding str_to_lower
str_to_lower-lt c h = ground arith

done-value {ℓ} : {A : Type ℓ} {a b : A} → done a ≡ done b → a ≡ b
done-value h = cc

module _ (ram : Ram) (str1 str2 : ℕ) (s t : List ℕ) (ts : IsText ram str1 s)
    (tt' : IsText ram str2 t) (hs : length s < 2 ^ 16) (ht : length t < 2 ^ 16) (bs : AllBytes s)
    (bt : AllBytes t) where
  -- `str_cmp` of two texts of less than 65536 bytes is zero just if they are equal.
  pub str_cmp-zero : (str_cmp ram str1 str2 ≡ done (pos 0)) ↔ (s ≡ t)
  unfolding str_cmp
  str_cmp-zero =
      let order = text_order-eq_map (λ c. c) s t (λ c h. h) bs bt in
      let run = cmp_with-text_order (λ c. c) ram str1 str2 s t ts tt' hs ht in
      (
        λ e. sym (map-key_id s) ∙ order.0 (done-value (sym run ∙ e)) ∙ map-key_id t,
        λ e. run ∙ ap done (order.1 (ap (map (λ c. c)) e)),
      )

  -- `str_icmp` of two texts of less than 65536 bytes is zero just if they are equal up to the case of
  -- letters.
  pub str_icmp-zero : (str_icmp ram str1 str2 ≡ done (pos 0)) ↔ (map fold_case s ≡ map fold_case t)
  unfolding str_icmp
  str_icmp-zero =
      let order = text_order-eq_map str_to_lower s t str_to_lower-lt bs bt in
      let run = cmp_with-text_order str_to_lower ram str1 str2 s t ts tt' hs ht in
      let cases = map-str_to_lower s t bs bt in
      (λ e. cases.0 (order.0 (done-value (sym run ∙ e))), λ e. run ∙ ap done (order.1 (cases.1 e)))

-- The comparison of two texts of less than 65536 bytes, by any key, returns, and swapping the
-- arguments negates the result.
pub cmp_with-flip :
    (key : ℕ → ℕ) (ram : Ram) (str1 str2 : ℕ) (s t : List ℕ)
    → IsText ram str1 s
    → IsText ram str2 t
    → length s < 2 ^ 16
    → length t < 2 ^ 16
    → (r : ℤ) × (cmp_with key ram str1 str2 ≡ done r)
      × (cmp_with key ram str2 str1 ≡ done (negate r))
cmp_with-flip key ram str1 str2 s t ts tt' hs ht = (
  text_order key s t,
  cmp_with-text_order key ram str1 str2 s t ts tt' hs ht,
  cmp_with-text_order key ram str2 str1 t s tt' ts ht hs
      ∙ ap done (sym (negate-text_order key s t)),
)
