-- ===== src/Driver/Requests.antt =====
-- A request of the timer while the driver's buffer holds blocks of a file.
use osu_cse.Base.{ℕ, ◌+◌, ◌%◌, ◌≤◌, ◌<◌, ◌≡◌, arith}
use osu_cse.Base.{true, false, Bool-cases, inl, inr, ltb, ◌⊎◌, Option, some, none}
use osu_cse.Base.{List}
use mathlib.Core.Path.{subst}
use osu_cse.Buffer.{Block, slots, slot, check_empty}
use osu_cse.Message.{read_resend}
use osu_cse.Driver.{Driver, transmit, resend}
use osu_cse.Driver.Rounds.{resent, handle_resend, on_request}
use osu_cse.Driver.Filled.{IsHere}
use osu_cse.Driver.Marks.{
  IsFrame, IsSending, IsAfter, IsResent, in_slot, asked_for, requested_block,
}

module _ (f : ℕ → Block) where
  transmit-IsSending :
      (w : Driver) (a s b k : ℕ) → IsSending f w a s b → IsSending f (transmit w k).0 a s b
  unfolding transmit
  transmit-IsSending w a s b k h = record {
    count = h.count;
    placed = record { lar = h.placed.lar; lfs = h.placed.lfs; bufpos = h.placed.bufpos };
    filled = h.filled;
    passed = h.passed;
  }

  -- What stands in a slot goes out: the block, or zeros once it was acknowledged or if there is none.
  transmit-IsFrame :
      (w : Driver) (a s b k : ℕ)
      → IsSending f w a s b
      → k < slots
      → IsFrame f (in_slot b k) (transmit w k).1
  unfolding transmit
  transmit-IsFrame w a s b k h inside = record {
    seq = number k b inside;
    body = (
      h.filled.all.1 k (omega (arith, inside)),
      elim (Bool-cases (ltb (k + slots) b)) [
        | inl again ↦ rw again (
            held (k + slots) (newer again) (omega (arith, h.count.room, h.count.below_end))
              (omega arith))
        | inr first ↦ rw first (elim (Bool-cases (ltb k b)) [
          | inl taken ↦ held k (older taken) (all_near first) (omega arith)
          | inr unused ↦ inl (h.filled.fresh k (behind unused) inside)
        ])
      ],
    );
  }
    where
      number : (k b : ℕ) → k < slots → k ≡ in_slot b k % slots
      number k b inside = ground arith

      newer : ltb (k + slots) b ≡ true → k + slots < b
      newer e = ground arith

      older : ltb k b ≡ true → k < b
      older e = ground arith

      behind : ltb k b ≡ false → b ≤ k
      behind e = ground arith

      all_near : ltb (k + slots) b ≡ false → b ≤ k + slots
      all_near e = ground arith

      body :
          (j : ℕ)
          → IsHere f w.sendbuf s j
          → (check_empty (slot w.sendbuf (j % slots)) ≡ true) ⊎ (slot w.sendbuf (j % slots) ≡ f j)
      body j (inl same) = inr same
      body j (inr (out, gone)) = inl gone

      held :
          (j : ℕ)
          → j < b
          → b ≤ j + slots
          → j % slots ≡ k
          → (check_empty (slot w.sendbuf k) ≡ true) ⊎ (slot w.sendbuf k ≡ f j)
      held j below near place =
          subst (λ x. (check_empty (slot w.sendbuf x) ≡ true) ⊎ (slot w.sendbuf x ≡ f j)) place
            (body j (h.filled.blocks j below near))

  resend-IsAfter :
      (w : Driver) (a s b k : ℕ)
      → IsSending f w a s b
      → IsAfter (IsResent f a s b (in_slot b k)) (resent (resend w k))
  unfolding resend
  resend-IsAfter w a s b k h = elim (Bool-cases (ltb k slots)) [
    | inl inside ↦
        rw inside
          (transmit-IsSending w a s b k h, (transmit-IsFrame w a s b k h (below inside), tt))
    | inr outside ↦ rw outside tt
  ]
    where
      below : ltb k slots ≡ true → k < slots
      below e = ground arith

  -- Whatever the timer asks for.
  pub on_request-IsAfter :
      (w : Driver) (a s b : ℕ) (request : Option (List ℕ))
      → IsSending f w a s b
      → IsAfter (IsResent f a s b (requested_block b request)) (on_request w request)
  unfolding on_request
  on_request-IsAfter w a s b none h = (h, tt)
  on_request-IsAfter w a s b (some bufin) h = go (read_resend bufin)
    where
      again : (id : ℕ) → IsAfter (IsResent f a s b (in_slot b id)) (resent (resend w id))
      again id = resend-IsAfter w a s b id h

      go : (id : Option ℕ) → IsAfter (IsResent f a s b (asked_for b id)) (handle_resend w id)
      go none = (h, tt)
      go (some id) = again id
