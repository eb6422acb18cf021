-- ===== src/Gpt/Choice.antt =====
-- The choice of a header in `find` of libs/gpt/src/lib.rs.
use i3ml_os.Prelude.{
  ℕ, ◌-◌, ◌≤◌, ◌<◌, ◌≡◌, ◌⊎◌, refl, sym, ◌∙◌, subst, Bool, true, false, not, ◌||◌, Option, none,
  some, List, arith, ltb, ltb→lt, ◌==◌, ==_iff, if◌then◌else◌, length, Bool-cases, Option-cases,
  inl, inr,
}
use i3ml_os.Journal.{Sectors}
use i3ml_os.Journal.Bytes.{slice, bytes_eq}
use i3ml_os.Journal.Chain.{peek, Same, IsReadable}
use i3ml_os.Gpt.{
  Header, parse_header, header_in, header_of, header_bytes, signature, unsigned_header, read_u32,
  find_header,
}
use i3ml_os.Gpt.Checksum.{crc32}
use i3ml_os.Gpt.Entries.{none_ne_some}

-- The two outcomes of a guard.
guarded {ℓ} :
    {A : Type ℓ} (b : Bool) (x : Option A) {a : A}
    → (if b then none else x) ≡ some a
    → (b ≡ false) × (x ≡ some a)
guarded true x e = absurd (none_ne_some e)
guarded false x e = (refl, e)

-- The header passed its own checksum, and what it says of the array is within bounds.
pub record Trusted (sector : List ℕ) (h : Header) : Type 0 where
  pub summed : crc32 (unsigned_header (read_u32 sector 12) sector) ≡ read_u32 sector 16
  pub says : h ≡ header_of sector
  pub size_least : 128 ≤ h.entry_size
  pub size_most : h.entry_size ≤ 4096
  pub count_most : h.entry_count ≤ 512

passed : (b : Bool) → not b ≡ false → b ≡ true
passed true e = refl
passed false e = cc

size_in :
    (s n : ℕ)
    → (ltb s 128 || (ltb 4096 s || ltb 512 n)) ≡ false
    → (128 ≤ s) × (s ≤ 4096) × (n ≤ 512)
size_in s n e = (ground arith, ground arith, ground arith)

pub parse_header-Trusted :
    (sector : List ℕ) (h : Header) → parse_header sector ≡ some h → Trusted sector h
unfolding parse_header
parse_header-Trusted sector h e =
    let g = header_of sector in
    let (signed, e₁) =
      guarded (ltb (length sector) header_bytes || not (bytes_eq (slice 0 8 sector) signature)) _
        e in
    let (sized, e₂) =
      guarded (ltb (read_u32 sector 12) header_bytes || ltb (length sector) (read_u32 sector 12)) _
        e₁ in
    let (summed, e₃) =
      guarded (not (crc32 (unsigned_header (read_u32 sector 12) sector) == read_u32 sector 16)) _
        e₂ in
    let (bounds, e₄) =
      guarded (ltb g.entry_size 128 || (ltb 4096 g.entry_size || ltb 512 g.entry_count)) (some g)
        e₃ in
    let is : g ≡ h = some_of e₄ in
    let (least, most, count) = size_in g.entry_size g.entry_count bounds in
    record {
      summed =
          (==_iff (crc32 (unsigned_header (read_u32 sector 12) sector)) (read_u32 sector 16)).0
            (passed _ summed);
      says = sym is;
      size_least = subst (λ (x : Header). 128 ≤ x.entry_size) is least;
      size_most = subst (λ (x : Header). x.entry_size ≤ 4096) is most;
      count_most = subst (λ (x : Header). x.entry_count ≤ 512) is count;
    }
  where
    some_of : {a b : Header} → some a ≡ some b → a ≡ b
    some_of e = cc

module _ {D : Type 0} (storage : Sectors D) where
  -- The header that `find` goes by: the primary one, or the backup if there is no primary one.
  pub record Chosen (total : ℕ) (d : D) (h : Header) : Type 0 where
    pub sector : List ℕ
    pub lba : ℕ
    pub read : peek storage lba d ≡ some sector
    pub parsed : parse_header sector ≡ some h
    pub place :
        (lba ≡ 1) ⊎ ((lba ≡ total - 1) × (1 < total) × (header_in (peek storage 1 d) ≡ none))

  header_in-some :
      (read : Option (List ℕ)) (h : Header)
      → header_in read ≡ some h
      → (sector : List ℕ) × (read ≡ some sector) × (parse_header sector ≡ some h)
  header_in-some none h e = absurd (none_ne_some e)
  header_in-some (some sector) h e = (sector, refl, e)

  module _ (readable : IsReadable storage) (total : ℕ) (d : D) where
    abbrev after_primary : D
    after_primary = (storage.read_sector 1 d).1

    abbrev after_backup : D
    after_backup = (storage.read_sector (total - 1) after_primary).1

    backup-Same : Same storage after_backup d
    backup-Same sector = readable.keeps (total - 1) after_primary sector ∙ readable.keeps 1 d sector

    pub find_header-Same : Same storage (find_header storage total d).1 d
    unfolding find_header
    find_header-Same sector = elim (Option-cases (header_in (peek storage 1 d))) [
      | inr (h, good) ↦ rw (good, find_header) (readable.keeps 1 d sector)
      | inl bad ↦ elim (Bool-cases (ltb 1 total)) [
        | inl more ↦ rw (bad, more, find_header) (backup-Same sector)
        | inr only ↦ rw (bad, only, find_header) (readable.keeps 1 d sector)
      ]
    ]

    pub find_header-Chosen :
        (h : Header) → (find_header storage total d).0 ≡ some h → Chosen total d h
    unfolding find_header
    find_header-Chosen h e = elim (Option-cases (header_in (peek storage 1 d))) [
      | inr (primary, good) ↦
          let out : (find_header storage total d).0 ≡ some primary = rw (good, find_header) refl in
          let (sector, got, parsed) = header_in-some (peek storage 1 d) h (good ∙ (sym out ∙ e)) in
          record { sector = sector; lba = 1; read = got; parsed = parsed; place = inl refl }
      | inl bad ↦ elim (Bool-cases (ltb 1 total)) [
        | inr only ↦
            let out : (find_header storage total d).0 ≡ none = rw (bad, only, find_header) refl in
            absurd (none_ne_some (sym out ∙ e))
        | inl more ↦
            let out : (find_header storage total d).0
                ≡ header_in (peek storage (total - 1) after_primary) =
              rw (bad, more, find_header) refl in
            let (sector, got, parsed) =
              header_in-some (peek storage (total - 1) after_primary) h (sym out ∙ e) in
            record {
              sector = sector;
              lba = total - 1;
              read = sym (readable.keeps 1 d (total - 1)) ∙ got;
              parsed = parsed;
              place = inr (refl, ltb→lt 1 total more, bad);
            }
      ]
    ]
