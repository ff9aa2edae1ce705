-- ===== src/Os/Logged.antt =====
-- Which calls stand in the log, and which paths are free.
use aura_cp.Prelude.{◌≡◌, refl, ◌⊎◌, inl, inr, Bool, true, false, List, [], ◌∷◌, none, Bytes}
use aura_cp.Os.{Call, remove, Kernel, State, perform, attempt, noted}
use aura_cp.Os.Steady.{Preserves, Makes}

abbrev pub Logged : Call → List Call → Type 0
Logged c [] = ⊥
Logged c (x ∷ log) = (x ≡ c) ⊎ Logged c log

abbrev pub Has : {W : Type 0} → Call → State W → Type 0
Has c s = Logged c s.log

-- There is nothing at the path.
abbrev pub Absent : {W : Type 0} → Kernel W → Bytes → State W → Type 0
Absent k p s = k.stat p s.world ≡ none

module _ {W : Type 0} (k : Kernel W) where
  noted-here : (c : Call) (log : List Call) (r : Bool × W) → Logged c (noted k c log r).1.log
  unfolding noted
  noted-here c log (true, w) = inl refl
  noted-here c log (false, w) = inl refl

  noted-keeps :
      (b c : Call) (log : List Call) (r : Bool × W)
      → Logged c log
      → Logged c (noted k b log r).1.log
  unfolding noted
  noted-keeps b c log (true, w) h = inr h
  noted-keeps b c log (false, w) h = inr h

  pub Preserves-Has : (c b : Call) → Preserves (Has c) (perform k b)
  unfolding perform
  Preserves-Has c b = record { at = λ s h. noted-keeps b c s.log (k.act b s.world) h }

  pub Makes-Has : (b : Call) → Makes (Has b) (attempt k b)
  unfolding attempt perform
  Makes-Has b = record { at = λ s. noted-here b s.log (k.act b s.world) }

  pub Performs : (b : Call) → Makes (Has b) (perform k b)
  unfolding perform
  Performs b = record { at = λ s. noted-here b s.log (k.act b s.world) }

  noted-world : (b : Call) (log : List Call) (r : Bool × W) → (noted k b log r).1.world ≡ r.1
  unfolding noted
  noted-world b log (true, w) = refl
  noted-world b log (false, w) = refl

  pub Preserves-world :
      (b : Call) (Q : W → Type 0)
      → ((w : W) → Q w → Q (k.act b w).1)
      → Preserves (λ s. Q s.world) (perform k b)
  unfolding perform
  Preserves-world b Q q = record {
    at = λ s h. rw (noted-world b s.log (k.act b s.world)) (q s.world h);
  }

  pub Preserves-Absent :
      (p : Bytes) (b : Call)
      → ((w : W) → k.stat p w ≡ none → k.stat p (k.act b w).1 ≡ none)
      → Preserves (Absent k p) (perform k b)
  unfolding perform
  Preserves-Absent p b q = record {
    at = λ s h. rw (noted-world b s.log (k.act b s.world)) (q s.world h);
  }

  pub Makes-Absent :
      (p : Bytes)
      → ((w : W) → k.stat p (k.act (remove p) w).1 ≡ none)
      → Makes (Absent k p) (attempt k (remove p))
  unfolding attempt perform
  Makes-Absent p q = record {
    at = λ s. rw (noted-world (remove p) s.log (k.act (remove p) s.world)) (q s.world);
  }
