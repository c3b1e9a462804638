-- ===== src/Fat/Find.antt =====
-- Looking for a name in a directory that does not have it.
use koko_os.Prelude.{
  ℕ, zero, suc, ◌+◌, ◌*◌, ◌^◌, ◌≤◌, ◌<◌, ◌≡◌, ◌≢◌, refl, ◌∙◌, ap, ◌⊎◌, inl, inr, List, [], ◌∷◌,
  ◌++◌, length, length-append, arith, true, false, ltb, lt-cases, lt→ltb, done, ◌>>=◌, ℤ, pos,
  negsuc,
}
use mathlib.Core.List.{map}
use koko_os.Ram.{Ram, load32}
use koko_os.Ram.Words.{load32_congr}
use koko_os.Heap.{w32}
use koko_os.Memory.{Machine}
use koko_os.Ports.{Ports}
use koko_os.Text.{address_space, str_icmp, str_to_lower}
use koko_os.Text.View.{IsText, IsText-congr, AllBytes}
use koko_os.Text.Compare.{fold_case, str_icmp-zero, cmp_with-flip}
use koko_os.Fat.{Places, is_ok, ext_of}
use koko_os.Fat.Names.{get_full_relative_filename}
use koko_os.Fat.Fields.{IsField, dotted, IsField-congr}
use koko_os.Fat.NameText.{get_full_relative_filename_lem}
use koko_os.Fat.Items.{find_loop, find_item_in_directory}

not_ok : (r : ℤ) → r ≢ pos 0 → is_ok r ≡ false
unfolding is_ok
not_ok (pos zero) h = absurd (h refl)
not_ok (pos (suc n)) h = refl
not_ok (negsuc n) h = refl

-- Texts that differ in more than the case of letters.
icmp_differs :
    (ram : Ram) (p q : ℕ) (s t : List ℕ)
    → IsText ram p s
    → IsText ram q t
    → length s < 2 ^ 16
    → length t < 2 ^ 16
    → AllBytes s
    → AllBytes t
    → map fold_case s ≢ map fold_case t
    → (r : ℤ) × (str_icmp ram p q ≡ done r) × (is_ok r ≡ false)
unfolding str_icmp
icmp_differs ram p q s t ts tt' hs ht bs bt other =
    let (r, run, back) = cmp_with-flip str_to_lower ram p q s t ts tt' hs ht in
    (
      r,
      run,
      not_ok r (λ e. other ((str_icmp-zero ram p q s t ts tt' hs ht bs bt).0 (run ∙ ap done e))),
    )

AllBytes-append : (s t : List ℕ) → AllBytes s → AllBytes t → AllBytes (s ++ t)
AllBytes-append [] t a b = b
AllBytes-append (c ∷ s) t a b = (a.0, AllBytes-append s t a.1 b)

AllBytes-dotted : (s : List ℕ) → AllBytes s → AllBytes (dotted s)
AllBytes-dotted [] a = a
AllBytes-dotted (c ∷ s) a = (omega arith, a)

length-dotted : (s : List ℕ) → length (dotted s) ≤ length s + 1
length-dotted [] = omega arith
length-dotted (c ∷ s) = omega arith

-- A directory of `total` items in memory, with the names and the extensions of the items.
pub record IsDirectory (ram : Ram) (directory items total : ℕ) (base ext : ℕ → List ℕ)
    : Type 0 where
  pub items_there : load32 ram directory ≡ items
  pub total_there : load32 ram (directory + 4) ≡ total
  pub fits : items + 32 * total ≤ 2 ^ 32
  pub names : (i : ℕ) → i < total → IsField ram (items + i * 32) (base i)
  pub extensions : (i : ℕ) → i < total → IsField ram (ext_of (items + i * 32)) (ext i)
  pub short : (i : ℕ) → i < total → (length (base i) < 20) × (length (ext i) < 20)
  pub bytes : (i : ℕ) → i < total → AllBytes (base i) × AllBytes (ext i)

-- The memory outside the buffer of names.
abbrev Agrees : (buffer : ℕ) → Ram → Ram → Type 0
Agrees buffer ram ram' = (b : ℕ) → (b < buffer) ⊎ (buffer + 256 ≤ b) → ram' b ≡ ram b

IsDirectory-Agrees :
    (buffer : ℕ) (ram ram' : Ram) (directory items total : ℕ) (base ext : ℕ → List ℕ)
    → (directory + 8 ≤ buffer) ⊎ (buffer + 256 ≤ directory)
    → (items + 32 * total + 32 ≤ buffer) ⊎ (buffer + 256 ≤ items)
    → Agrees buffer ram ram'
    → IsDirectory ram directory items total base ext
    → IsDirectory ram' directory items total base ext
IsDirectory-Agrees buffer ram ram' directory items total base ext apart apart_items same v =
    record {
      items_there =
          load32_congr ram ram' directory (λ b lo hi. same b (omega arith)) ∙ v.items_there;
      total_there =
          load32_congr ram ram' (directory + 4) (λ b lo hi. same b (omega arith)) ∙ v.total_there;
      fits = v.fits;
      names = λ i hi.
          IsField-congr ram ram' (items + i * 32) (base i)
            (λ b lo up. same b (omega (arith, (v.short i hi).0))) (v.names i hi);
      extensions = λ i hi.
          IsField-congr ram ram' (ext_of (items + i * 32)) (ext i)
            (λ b lo up. same b (omega (arith, (v.short i hi).1))) (v.extensions i hi);
      short = v.short;
      bytes = v.bytes;
    }

module _ (ports : Ports) (patience primary_disk : ℕ) (places : Places)
    (disk directory name items total : ℕ) (base ext : ℕ → List ℕ) (text : List ℕ) where
  open ports use {Device}

  find_end :
      (n : ℕ) (m : Machine) (d : Device) (i found : ℕ)
      → load32 m.ram (directory + 4) ≤ i
      → find_loop ports patience primary_disk places (suc n) m d disk directory name i found
        ≡ done (found, m, d)
  unfolding find_loop
  find_end n m d i found h =
      let e : ltb i (load32 m.ram (directory + 4)) ≡ false = ground arith in rw (find_loop, e) refl

  find_step :
      (n : ℕ) (m : Machine) (d : Device) (i found : ℕ) (ram' : Ram) (order : ℤ)
      → ltb i (load32 m.ram (directory + 4)) ≡ true
      → w32 (load32 m.ram directory + i * 32) ≡ items + i * 32
      → get_full_relative_filename m.ram (items + i * 32) places.tmp_filename 256 ≡ done ram'
      → str_icmp ram' places.tmp_filename name ≡ done order
      → is_ok order ≡ false
      → find_loop ports patience primary_disk places (suc n) m d disk directory name i found
        ≡ find_loop ports patience primary_disk places n
            (record m { ram = ram' })
            d
            disk
            directory
            name
            (i + 1)
            found
  unfolding find_loop
  find_step n m d i found ram' order more at named compared other =
      rw (find_loop, more, at, named, compared, ◌>>=◌, other) refl

  -- The text of an item's name.
  abbrev pub full_name : ℕ → List ℕ
  full_name i = base i ++ dotted (ext i)

  full_name-short :
      (i : ℕ) → length (base i) < 20 → length (ext i) < 20 → length (full_name i) < 2 ^ 16
  full_name-short i a b =
      omega (arith, length-append (base i) (dotted (ext i)), length-dotted (ext i))

  module _ (apart : (directory + 8 ≤ places.tmp_filename) ⊎ (places.tmp_filename + 256 ≤ directory))
      (apart_items : (items + 32 * total + 32 ≤ places.tmp_filename)
        ⊎ (places.tmp_filename + 256 ≤ items))
      (apart_name : (name + length text < places.tmp_filename) ⊎ (places.tmp_filename + 256 ≤ name))
      (text_short : length text < 2 ^ 16) (text_bytes : AllBytes text)
      (unlike : (i : ℕ) → i < total → map fold_case (full_name i) ≢ map fold_case text) where
    -- A loop that ends with the item it starts with.
    record Passes (m : Machine) (d : Device) (n i found : ℕ) : Type 0 where
      ram' : Ram
      returns :
          find_loop ports patience primary_disk places n m d disk directory name i found
          ≡ done (found, record m { ram = ram' }, d)
      same : Agrees places.tmp_filename m.ram ram'

    loop-Passes :
        (n : ℕ) (m : Machine) (d : Device) (i found : ℕ)
        → IsDirectory m.ram directory items total base ext
        → IsText m.ram name text
        → i ≤ total
        → total < i + n
        → Passes m d n i found
    loop-Passes zero m d i found v t hi fuel = absurd (omega arith)
    loop-Passes (suc n) m d i found v t hi fuel = elim (lt-cases i total) [
      | inr over ↦ record {
        ram' = m.ram;
        returns = find_end n m d i found (omega (arith, v.total_there));
        same = λ b h. refl;
      }
      | inl more ↦
          let (short_base, short_ext) = v.short i more in
          let (base_bytes, ext_bytes) = v.bytes i more in
          let named =
            get_full_relative_filename_lem m.ram (items + i * 32) places.tmp_filename 256 (base i)
              (ext i) (v.names i more) (v.extensions i more) (omega arith) (omega arith)
              (omega arith) (omega arith) in
          let kept_name : IsText named.ram' name text =
            IsText-congr m.ram named.ram' name text (λ b lo up. named.kept b (omega arith)) t in
          let long : length (full_name i) < 2 ^ 16 = full_name-short i short_base short_ext in
          let (order, run, differs) =
            icmp_differs named.ram' places.tmp_filename name (full_name i) text named.text_there
              kept_name long text_short
              (AllBytes-append (base i) (dotted (ext i)) base_bytes
                (AllBytes-dotted (ext i) ext_bytes))
              text_bytes (unlike i more) in
          let rest =
            loop-Passes n (record m { ram = named.ram' }) d (i + 1) found
              (IsDirectory-Agrees places.tmp_filename m.ram named.ram' directory items total base
                ext apart apart_items named.kept v)
              kept_name (omega arith) (omega arith) in
          let inside : ltb i (load32 m.ram (directory + 4)) ≡ true =
            ap (ltb i) v.total_there ∙ lt→ltb i total more in
          record {
            ram' = rest.ram';
            returns =
                find_step n m d i found named.ram' order inside
                  (ap (λ x. w32 (x + i * 32)) v.items_there ∙ omega (arith, v.fits)) named.returns
                  run differs
                ∙ rest.returns;
            same = λ b h. rest.same b h ∙ named.kept b h;
          }
    ]

    -- Looking for a name in a directory of `total` items in memory, none of whose names is the text
    -- of the name up to the case of letters: the call returns the null pointer. The items' names and
    -- extensions have less than 20 bytes each, the text less than 65536, and the buffer of names
    -- lies apart from the directory, its items and the text. Nothing is read from the disk, and no
    -- byte outside the buffer changes.
    pub find_item_in_directory-none :
        (m : Machine) (d : Device)
        → IsDirectory m.ram directory items total base ext
        → IsText m.ram name text
        → total < 2 ^ 32
        → (ram' : Ram) × (find_item_in_directory ports patience primary_disk places m d disk
              directory name
            ≡ done (0, record m { ram = ram' }, d))
          × ((b : ℕ)
              → (b < places.tmp_filename) ⊎ (places.tmp_filename + 256 ≤ b)
              → ram' b ≡ m.ram b)
    unfolding find_item_in_directory
    find_item_in_directory-none m d v t small =
        let p = loop-Passes address_space m d 0 0 v t (omega arith) (omega arith) in
        (p.ram', p.returns, p.same)
