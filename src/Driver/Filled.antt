-- ===== src/Driver/Filled.antt =====
-- What the driver's buffer holds of the blocks of a file, of which `s` were sent and `b` taken from
-- ftpc: block `j` stands at `j` modulo 64.
use osu_cse.Base.{ℕ, zero, suc, ◌+◌, ◌%◌, ◌≤◌, ◌<◌, ◌≡◌, ◌≢◌, refl, sym, ap, ◌∙◌, arith}
use osu_cse.Base.{true, false, inl, inr, Bool-cases, ltb, ◌==◌, ◌⊎◌, some}
use osu_cse.Base.{List, [], ◌∷◌, length, set, get_or-set_self, get_or-set_ne, length-set}
use osu_cse.Base.Int.{int_laws, parts_apart, neg_part, pos, ◌-ℤ◌, pos_part}
use mathlib.Core.Bool.{false≢true}
use osu_cse.Buffer.{Block, buff_size, slots, blank, slot, check_empty, overlay}
use osu_cse.Buffer.Stores.{length-blank, blank_empty, slot-stored}
use osu_cse.Driver.{Driver, goes_on}
use osu_cse.Driver.Scans.{IsStop, goes_on_off}

-- A block is replaced in a buffer of full blocks.
pub slot-set_or :
    (buf : List Block) (k i : ℕ) (body : Block)
    → (slot (set buf k body) i ≡ body) ⊎ (slot (set buf k body) i ≡ slot buf i)
slot-set_or [] k i body = inr refl
slot-set_or (x ∷ buf) zero zero body = inl refl
slot-set_or (x ∷ buf) zero (suc i) body = inr refl
slot-set_or (x ∷ buf) (suc k) zero body = inr refl
slot-set_or (x ∷ buf) (suc k) (suc i) body = slot-set_or buf k i body

abbrev pub IsFull : List Block → Type 0
IsFull buf = (length buf ≡ slots) × ((i : ℕ) → i < slots → length (slot buf i) ≡ buff_size)

pub IsFull-set :
    (buf : List Block) (k : ℕ) (body : Block)
    → IsFull buf
    → length body ≡ buff_size
    → IsFull (set buf k body)
IsFull-set buf k body (size, blocks) full =
    (length-set buf k body ∙ size, λ i h. which i (slot-set_or buf k i body) h)
  where
    which :
        (i : ℕ)
        → (slot (set buf k body) i ≡ body) ⊎ (slot (set buf k body) i ≡ slot buf i)
        → i < slots
        → length (slot (set buf k body) i) ≡ buff_size
    which i (inl new) h = ap length new ∙ full
    which i (inr old) h = ap length old ∙ blocks i h

one_is : (k : ℕ) → pos k -ℤ pos 1 ≡ pos 0 → k ≡ 1
one_is k e = omega (int_laws, ap pos_part e, ap neg_part e, parts_apart (pos k -ℤ pos 1))

module _ (f : ℕ → Block) where
  -- Block `j` as it stands in the buffer, or it was sent and acknowledged.
  abbrev pub IsHere : List Block → ℕ → ℕ → Type 0
  IsHere buf s j =
      (slot buf (j % slots) ≡ f j) ⊎ ((j < s) × (check_empty (slot buf (j % slots)) ≡ true))

  pub record IsFilled (buf : List Block) (s b : ℕ) : Type 0 where
    pub all : IsFull buf
    pub blocks : (j : ℕ) → j < b → b ≤ j + slots → IsHere buf s j
    pub fresh : (j : ℕ) → b ≤ j → j < slots → check_empty (slot buf j) ≡ true

  -- A block that is not overwritten.
  IsHere-elsewhere :
      (buf buf' : List Block) (s j : ℕ)
      → slot buf' (j % slots) ≡ slot buf (j % slots)
      → IsHere buf s j
      → IsHere buf' s j
  IsHere-elsewhere buf buf' s j e (inl same) = inl (e ∙ same)
  IsHere-elsewhere buf buf' s j e (inr (sent, gone)) = inr (sent, ap check_empty e ∙ gone)

  -- Block `b` is taken.
  pub IsFilled-taken :
      (buf : List Block) (s b : ℕ)
      → length (f b) ≡ buff_size
      → s ≤ b
      → IsFilled buf s b
      → IsFilled (set buf (b % slots) (overlay (f b) (slot buf (b % slots)))) s (suc b)
  IsFilled-taken buf s b full le h = record {
    all = IsFull-set buf (b % slots) written h.all (ap length whole ∙ full);
    blocks = λ j below near. elim (Bool-cases (j == b)) [
      | inl same ↦
          inl (ap (λ k. slot new (k % slots)) (equal j same) ∙ here ∙ ap f (sym (equal j same)))
      | inr other ↦
          IsHere-elsewhere buf new s j
            (get_or-set_ne buf (b % slots) (j % slots) written []
              (apart j below near (differs j other)))
            (h.blocks j (lower j below (differs j other)) (omega arith))
    ];
    fresh = λ j above inside.
        ap check_empty (get_or-set_ne buf (b % slots) j written [] (λ e. omega (arith, e)))
        ∙ h.fresh j (omega arith) inside;
  }
    where
      written : Block
      written = overlay (f b) (slot buf (b % slots))

      new : List Block
      new = set buf (b % slots) written

      here : slot new (b % slots) ≡ f b
      here =
          slot-stored buf (b % slots) (f b) (omega (arith, h.all.0))
            (omega (arith, full, h.all.1 (b % slots) (omega arith)))

      whole : written ≡ f b
      whole = sym (get_or-set_self buf (b % slots) written [] (omega (arith, h.all.0))) ∙ here

      equal : (j : ℕ) → (j == b) ≡ true → j ≡ b
      equal j e = ground arith

      differs : (j : ℕ) → (j == b) ≡ false → j ≢ b
      differs j e = ground arith

      lower : (j : ℕ) → j < suc b → j ≢ b → j < b
      lower j lt ne = ground arith

      apart : (j : ℕ) → j < suc b → suc b ≤ j + slots → j ≢ b → b % slots ≢ j % slots
      apart j lt near ne e = omega (arith, lower j lt ne, e)

  -- Block `j`, which was sent, is taken out.
  pub IsFilled-acked :
      (buf : List Block) (s b j : ℕ)
      → s ≤ b
      → j < s
      → b ≤ j + slots
      → IsFilled buf s b
      → IsFilled (set buf (j % slots) blank) s b
  IsFilled-acked buf s b j le sent recent h = record {
    all = IsFull-set buf (j % slots) blank h.all length-blank;
    blocks = λ i below near. elim (Bool-cases (i == j)) [
      | inl same ↦ inr (
        omega (arith, equal i same),
        ap (λ k. check_empty (slot new (k % slots))) (equal i same) ∙ out,
      )
      | inr other ↦
          IsHere-elsewhere buf new s i
            (get_or-set_ne buf (j % slots) (i % slots) blank [] (apart i below near other))
            (h.blocks i below near)
    ];
    fresh = λ i above inside.
        ap check_empty (get_or-set_ne buf (j % slots) i blank [] (λ e. omega (arith, e)))
        ∙ h.fresh i above inside;
  }
    where
      new : List Block
      new = set buf (j % slots) blank

      out : check_empty (slot new (j % slots)) ≡ true
      out =
          ap check_empty (get_or-set_self buf (j % slots) blank [] (omega (arith, h.all.0)))
          ∙ blank_empty

      equal : (i : ℕ) → (i == j) ≡ true → i ≡ j
      equal i e = ground arith

      differs : (i : ℕ) → (i == j) ≡ false → i ≢ j
      differs i e = ground arith

      apart : (i : ℕ) → i < b → b ≤ i + slots → (i == j) ≡ false → j % slots ≢ i % slots
      apart i below near other e = differs i other (omega (arith, e))

  -- One block more is sent.
  pub IsFilled-sent : (buf : List Block) (s b : ℕ) → IsFilled buf s b → IsFilled buf (suc s) b
  IsFilled-sent buf s b h = record {
    all = h.all;
    blocks = λ j below near. later j (h.blocks j below near);
    fresh = h.fresh;
  }
    where
      later : (j : ℕ) → IsHere buf s j → IsHere buf (suc s) j
      later j (inl same) = inl same
      later j (inr (sent, gone)) = inr (omega (arith, sent), gone)

  -- The block that is sent next.
  pub IsFilled-next :
      (buf : List Block) (s b : ℕ)
      → IsFilled buf s b
      → s < b
      → b ≤ s + slots
      → slot buf (s % slots) ≡ f s
  IsFilled-next buf s b h waits near = go (h.blocks s waits near)
    where
      go : IsHere buf s s → slot buf (s % slots) ≡ f s
      go (inl same) = same
      go (inr (sent, gone)) = absurd (omega (arith, sent))

  -- If no block is zero, the scan for the first block that is not acknowledged does not go past
  -- those sent.
  pub stop-le :
      (w : Driver) (a s b t : ℕ)
      → ((j : ℕ) → check_empty (f j) ≡ false)
      → IsFilled w.sendbuf s b
      → w.lfs ≡ pos (s % slots) -ℤ pos 1
      → a ≤ s
      → s ≤ b
      → b ≤ s + slots
      → IsStop w a (some t)
      → t ≤ s
  stop-le w a s b t solid h place low le near (from, inside, empty, why) =
      elim (Bool-cases (ltb s t)) [
        | inr behind ↦ not_past behind
        | inl past ↦ elim (Bool-cases (ltb s b)) [
          | inl waits ↦
              absurd
                (false≢true (sym (solid s) ∙ sym (next past waits) ∙ empty s low (before past)))
          | inr none_waits ↦ absurd (out past none_waits why)
        ]
      ]
    where
      not_past : ltb s t ≡ false → t ≤ s
      not_past e = ground arith

      before : ltb s t ≡ true → s < t
      before e = ground arith

      waits_is : ltb s b ≡ true → s < b
      waits_is e = ground arith

      next : ltb s t ≡ true → ltb s b ≡ true → check_empty (slot w.sendbuf s) ≡ check_empty (f s)
      next past waits =
          ap (λ k. check_empty (slot w.sendbuf k)) {x = s} {y = s % slots}
            (omega (arith, before past))
          ∙ ap check_empty (IsFilled-next w.sendbuf s b h (waits_is waits) near)

      all_sent : ltb s b ≡ false → b ≤ s
      all_sent e = ground arith

      out :
          ltb s t ≡ true
          → ltb s b ≡ false
          → (check_empty (slot w.sendbuf t) ≡ false) ⊎ (goes_on w t ≡ false)
          → ⊥
      out past none_waits (inl there) =
          false≢true
            (sym there ∙ h.fresh t (omega (arith, all_sent none_waits, before past)) inside)
      out past none_waits (inr off) =
          let (early, zero_is) = goes_on_off w t off in
          omega (int_laws, before past, early, one_is (s % slots) (sym place ∙ zero_is))
