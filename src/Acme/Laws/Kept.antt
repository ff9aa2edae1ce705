-- ===== src/Acme/Laws/Kept.antt =====
-- Certificates stay known, and a round of renewals leaves those alone that are not due.
use aura_cp.Prelude.{
  ℕ, ◌/◌, ◌≡◌, ◌≢◌, refl, sym, ◌∙◌, Bool, true, false, List, [], ◌∷◌, Option, Bytes, bytes_eq, All,
  keep, arith,
}
use aura_cp.Rows.Laws.{All-keep, All-kept}
use aura_cp.Os.{State, Kernel, Exec, asks, ignored, each, ◌>>=◌}
use aura_cp.Os.Steady.{Preserves, Preserves-pure, Preserves-bind, Preserves-ignored}
use aura_cp.Store.{
  Certificate, certificate, certificates_expiring_within, sorted_by_expiry, by_expiry,
  expires_within,
}
use aura_cp.Store.Laws.{upsert-other}
use aura_cp.Host.{Host, query}
use aura_cp.Acme.{Authority, second, month}
use aura_cp.Acme.Issue.{issue, ensure_cert, renew, renew_due}
use aura_cp.Acme.Laws.Tabled.{Tabled, issue-Tabled}
use aura_cp.Acme.Laws.Named.{Has, row_of-domain}

-- What the panel asks of the manager, in any order.
pub data Action : Type 0 where
  ensures : (domain : Bytes) → Action
  issues : (domain : Bytes) (force_dns : Bool) → Action
  renews : Action

module _ {W : Type 0} (k : Kernel W) (a : Authority W) where
  unfoldable pub act : Action → Exec (Host W) (Unit {0})
  act (ensures domain) = ensure_cert k a domain
  act (issues domain force_dns) = issue k a domain force_dns
  act renews = renew_due k a

  abbrev pub actions : List Action → Exec (Host W) (Unit {0})
  actions = each (λ x. ignored (act x))

  module _ (domain cert key : Bytes) (expires : ℕ) where
    abbrev Keeps : {A : Type 0} → Exec (Host W) A → Type 0
    Keeps = Preserves (Tabled (Has a.leaf_expiry domain cert key expires))

module _ {W : Type 0} (k : Kernel W) (a : Authority W) where
  -- Rows of the domain are not due.
  abbrev pub IsNotDue : Bytes → (now : ℕ) → Certificate → Type 0
  IsNotDue domain now c = c.domain ≡ domain → expires_within now month c ≡ false

  All-by_expiry :
      (P : Certificate → Type 0) (c : Certificate) (cs : List Certificate)
      → P c
      → All P cs
      → All P (by_expiry c cs)
  unfolding by_expiry
  All-by_expiry P c [] h hs = (h, hs)
  All-by_expiry P c (d ∷ ds) h hs = ground (arith, All-by_expiry P c ds h hs.1)

  All-sorted :
      (P : Certificate → Type 0) (cs : List Certificate) → All P cs → All P (sorted_by_expiry cs)
  unfolding sorted_by_expiry
  All-sorted P [] h = tt
  All-sorted P (c ∷ cs) h = All-by_expiry P c (sorted_by_expiry cs) h.0 (All-sorted P cs h.1)

  All-apart :
      (domain : Bytes) (now : ℕ) (cs : List Certificate)
      → All (IsNotDue domain now) cs
      → All (λ c. expires_within now month c ≡ true) cs
      → All (λ c. c.domain ≢ domain) cs
  All-apart domain now [] h due = tt
  All-apart domain now (c ∷ cs) h due =
      (λ same. absurd (ground (arith, h.0 same, due.0)), All-apart domain now cs h.1 due.1)

  each-apart :
      (domain : Bytes) (row : Option Certificate) (cs : List Certificate)
      → All (λ c. c.domain ≢ domain) cs
      → Preserves (Tabled (λ t. certificate domain t ≡ row)) (each (renew k a) cs)
  unfolding each renew
  each-apart domain row [] h = Preserves-pure tt
  each-apart domain row (c ∷ cs) h =
      Preserves-bind _ _
        (Preserves-ignored _ (
          issue-Tabled k a c.domain (λ new. new.domain ≡ c.domain)
            (λ t e. row_of-domain c.domain (certificate c.domain t)) (λ text new same. same)
            (λ now body new same. same)
            (λ new t same e. upsert-other new domain t (λ clash. h.0 (sym same ∙ clash)) ∙ e)
            false))
        λ x. each-apart domain row cs h.1

  -- A round of renewals does not touch the certificate of a domain that has no row that expires within 30
  -- days.
  pub renew_due-leaves :
      (domain : Bytes) (s : State (Host W))
      → All (IsNotDue domain (a.now s.world.machine / second)) s.world.tables.certificates
      → certificate domain (renew_due k a s).1.world.tables ≡ certificate domain s.world.tables
  unfolding renew_due asks query ◌>>=◌ certificates_expiring_within
  renew_due-leaves domain s h =
      let now = a.now s.world.machine / second in
      let due = expires_within now month in
      ((each-apart domain (certificate domain s.world.tables)
          (sorted_by_expiry (keep due s.world.tables.certificates))
          (All-sorted _ _ (
            All-apart domain now (keep due s.world.tables.certificates)
              (All-keep (IsNotDue domain now) due s.world.tables.certificates h)
              (All-kept due s.world.tables.certificates)))).at
        s (record { holds = refl })).holds
