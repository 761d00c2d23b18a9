-- ===== src/Net/Queue/Ring.antt =====
-- A queue as a list of buffers: the ring that its links form, and what a write elsewhere leaves of it.
use linuxab.Prelude.{ℕ, ◌≡◌, ◌≢◌, List, [], ◌∷◌, arith, length}
use linuxab.Prelude.Distinct.{NotIn, Distinct}
use linuxab.Net.Queue.{Links, put}

-- From `p` the `next` links lead through `xs` to `q`, and the `prev` links lead back.
abbrev pub Chain : (ℕ → ℕ) → (ℕ → ℕ) → ℕ → List ℕ → ℕ → Type 0
Chain next prev p [] q = (next p ≡ q) × (prev q ≡ p)
Chain next prev p (x ∷ xs) q = (next p ≡ x) × (prev x ≡ p) × Chain next prev x xs q

-- The queue with head `list` holds `xs`, its front first.
pub record IsQueue (s : Links) (list : ℕ) (xs : List ℕ) : Type 0 where
  pub ring : Chain s.next s.prev list xs list
  pub apart : NotIn list xs
  pub distinct : Distinct xs
  pub counted : s.qlen list ≡ length xs

pub frame_next :
    (next prev : ℕ → ℕ) (a v p : ℕ) (xs : List ℕ) (q : ℕ)
    → a ≢ p
    → NotIn a xs
    → Chain next prev p xs q
    → Chain (put next a v) prev p xs q
frame_next next prev a v p [] q h n c = (ground arith, c.1)
frame_next next prev a v p (x ∷ xs) q h n c =
    (ground arith, c.1, frame_next next prev a v x xs q n.0 n.1 c.2)

pub frame_prev :
    (next prev : ℕ → ℕ) (a v p : ℕ) (xs : List ℕ) (q : ℕ)
    → a ≢ q
    → NotIn a xs
    → Chain next prev p xs q
    → Chain next (put prev a v) p xs q
frame_prev next prev a v p [] q h n c = (c.0, ground arith)
frame_prev next prev a v p (x ∷ xs) q h n c =
    (c.0, ground arith, frame_prev next prev a v x xs q h n.1 c.2)
