-- ===== src/Files/Archive/Bound.antt =====
-- How much an archive takes in.
use aura_cp.Prelude.{
  ℕ, ◌+◌, ◌%◌, ◌^◌, ◌<◌, ◌&&◌, All, ◌≤◌, ◌≡◌, refl, sym, ap, inl, inr, Bool, true, false, ◌||◌,
  List, [], ◌∷◌, Option, none, some, Bytes, arith, ltb, if◌then◌else◌, Result, ok, err, ◌==◌,
  bytes_eq, Bool-cases,
}
use aura_cp.Errors.{Error, archive_too_large}
use aura_cp.Os.{Info, Kernel, State, Exec, pure, raise, guard, ◌>>=◌, continue}
use aura_cp.Files.Archive.{
  zip_max_bytes, is_too_large, add_size, add_file, add_dir, visit, visit_all,
}

-- The bytes that a visited item adds: none for directories, links and the archive itself.
abbrev pub payload_of : Bytes → Bytes × Option Info → ℕ
payload_of dest (path, none) = 0
payload_of dest (path, some info) =
    if path == dest || info.is_symlink || info.is_dir then 0 else info.size

abbrev pub payload : Bytes → List (Bytes × Option Info) → ℕ
payload dest [] = 0
payload dest (item ∷ items) = payload_of dest item + payload dest items

continue-ok :
    {W A B : Type 0} (r : Result Error A) (f : A → Exec W B) (s t : State W) {b : B}
    → continue r f s ≡ (ok b, t)
    → (a : A) × (r ≡ ok a) × (f a s ≡ (ok b, t))
continue-ok (ok a) f s t h = (a, refl, h)
continue-ok (err e) f s t h = absurd (cc)

-- Inversion of a successful bind.
pub bind-ok :
    {W A B : Type 0} (m : Exec W A) (f : A → Exec W B) (s t : State W) {b : B}
    → (m >>= f) s ≡ (ok b, t)
    → (a : A) × ((m s).0 ≡ ok a) × (f a (m s).1 ≡ (ok b, t))
unfolding ◌>>=◌
bind-ok m f s t h = continue-ok (m s).0 f (m s).1 t h

pure-ok : {W A : Type 0} (a b : A) (s t : State W) → pure a s ≡ (ok b, t) → a ≡ b
unfolding pure
pure-ok a b s t h = cc

guard-ok :
    {W : Type 0} (b : Bool) (e : Error) (s : State W) (x : Unit {0})
    → (guard b e s).0 ≡ ok x
    → b ≡ false
unfolding guard
guard-ok true e s x h = absurd (cc)
guard-ok false e s x h = refl

paired : {A B : Type 0} (p : A × B) (a : A) → p.0 ≡ a → p ≡ (a, p.1)
paired p a h = ap (λ x. (x, p.1)) h

-- No file system holds larger files: below 2 ^ 62 bytes, so that the total of 64 bits does not wrap.
abbrev pub IsStorable : Bytes × Option Info → Type 0
IsStorable (path, none) = Unit {0}
IsStorable (path, some info) = info.size < 2 ^ 62

small-mod : (n : ℕ) → n < 2 ^ 63 → n % 2 ^ 64 ≡ n
small-mod n h = omega (arith, h)

fits-le : (n : ℕ) → n < 2 ^ 63 → (ltb zip_max_bytes n && ltb n (2 ^ 63)) ≡ false → n ≤ zip_max_bytes
fits-le n h e = ground (arith, h, e)

module _ {W : Type 0} (k : Kernel W) (dest abs rel : Bytes) where
  add_file-total :
      (path name : Bytes) (total total' : ℕ) (s t : State W)
      → total < 2 ^ 63
      → add_file k dest path name total s ≡ (ok total', t)
      → (total' ≡ total) × (total ≤ zip_max_bytes)
  unfolding add_file
  add_file-total path name total total' s t small h =
      let (_, passed, h₁) = bind-ok (guard (is_too_large k total) archive_too_large) _ s t h in
      let (_, _, h₂) = bind-ok _ _ _ t h₁ in
      let (_, _, h₃) = bind-ok _ _ _ t h₂ in
      let (_, _, h₄) = bind-ok _ _ _ t h₃ in
      let fits = guard-ok _ _ s _ passed in
      (sym (pure-ok total total' _ t h₄), fits-le total small fits)

  add_dir-total :
      (name : Bytes) (total total' : ℕ) (s t : State W)
      → add_dir k dest name total s ≡ (ok total', t)
      → total' ≡ total
  unfolding add_dir
  add_dir-total name total total' s t h =
      let (_, _, h₁) = bind-ok _ _ s t h in sym (pure-ok total total' _ t h₁)

  visit-total :
      (item : Bytes × Option Info) (total total' : ℕ) (s t : State W)
      → total ≤ zip_max_bytes
      → IsStorable item
      → visit k dest abs rel total item s ≡ (ok total', t)
      → (total' ≡ total + payload_of dest item) × (total' ≤ zip_max_bytes)
  unfolding visit raise
  visit-total (path, none) total total' s t b f h = absurd (cc)
  visit-total (path, some info) total total' s t b storable h =
      elim (Bool-cases (path == dest || info.is_symlink)) [
        | inl e ↦ let same = pure-ok total total' s t (rw (e, visit) at h) in ground arith
        | inr e ↦ elim (Bool-cases info.is_dir) [
          | inl f ↦
              let same = add_dir-total _ total total' s t (rw (e, f, visit) at h) in ground arith
          | inr f ↦
              let small : total + info.size < 2 ^ 63 = omega (arith, b, storable) in
              let same : add_size k total info.size ≡ total + info.size =
                small-mod (total + info.size) small in
              let added =
                add_file-total path _ (total + info.size) total' s t small
                  (rw (e, f, visit, same) at h) in
              ground arith
        ]
      ]

  -- From a total within the bound, over a walk that shows no file of 2 ^ 62 bytes or more, what Walk's function
  -- adds up when it succeeds is exactly the sizes of the files that go in, the archive itself, links and
  -- directories apart, and the new total is within the bound.
  pub visit_all-total :
      (items : List (Bytes × Option Info)) (total total' : ℕ) (s t : State W)
      → total ≤ zip_max_bytes
      → All IsStorable items
      → visit_all k dest abs rel total items s ≡ (ok total', t)
      → (total' ≡ total + payload dest items) × (total' ≤ zip_max_bytes)
  unfolding visit_all
  visit_all-total [] total total' s t b f h =
      let same = pure-ok total total' s t h in omega (arith, same)
  visit_all-total (item ∷ items) total total' s t b storable h =
      let (mid, first, rest) = bind-ok (visit k dest abs rel total item) _ s t h in
      let (now, fits) = visit-total item total mid s _ b storable.0 (paired _ _ first) in
      let (later, bound) = visit_all-total items mid total' _ t fits storable.1 rest in
      (omega arith, bound)
