-- ===== src/Api/Limiting/Isolation.antt =====
-- The rate limiter of handler.go treats each address by itself.
use holdex_backend_cqrs.Prelude.{
  ℕ, ◌≡◌, refl, sym, ap, subst, ◌∙◌, String, Bool, true, false, List, [], ◌∷◌, inl, inr, Bool-cases,
  str_eq, eq_iff, select, if◌then◌else◌, arith,
}
use holdex_backend_cqrs.Api.Limiting.{Ips, Request, Network, client_ip, serve, keep_fresh, sweep}

pub data Step : Type 0 where
  request : Request → ℕ → Step
  tick : ℕ → Step

module _ {L : Type 0} (new_limiter : L) (allow : L → ℕ → Bool × L) (net : Network)
    (trust_proxy : Bool) where
  abbrev pub ip_of : Request → String
  ip_of r = client_ip net trust_proxy r

  -- The steps that concern an address: its own requests, and the sweeps.
  abbrev pub concerns : String → Step → Bool
  concerns me (request r now) = str_eq (ip_of r) me
  concerns me (tick now) = true

  abbrev pub after : Step → Ips L → Ips L
  after (request r now) ips = (serve new_limiter allow (ip_of r) now ips).1
  after (tick now) ips = sweep now ips

  -- What the steps answer to the requests of one address.
  abbrev pub answer : String → Step → Ips L → List Bool → List Bool
  answer me (request r now) ips rest =
      if str_eq (ip_of r) me then (serve new_limiter allow (ip_of r) now ips).0 ∷ rest else rest
  answer me (tick now) ips rest = rest

  abbrev pub answers : String → List Step → Ips L → List Bool
  answers me [] ips = []
  answers me (s ∷ steps) ips = answer me s ips (answers me steps (after s ips))

  after-other :
      (me : String) (s : Step) (ips : Ips L) → concerns me s ≡ false → after s ips me ≡ ips me
  unfolding serve
  after-other me (request r now) ips h = rw h
  after-other me (tick now) ips h = absurd (ground arith)

  after-own :
      (me : String) (s : Step) (ips jps : Ips L)
      → ips me ≡ jps me
      → concerns me s ≡ true
      → after s ips me ≡ after s jps me
  unfolding serve sweep
  after-own me (request r now) ips jps e h =
      let same : ips (ip_of r) ≡ jps (ip_of r) =
        subst (λ a. ips a ≡ jps a) (sym ((eq_iff (ip_of r) me).0 h)) e in
      rw h (rw same)
  after-own me (tick now) ips jps e h = ap (keep_fresh now) e

  answer-own :
      (me : String) (s : Step) (ips jps : Ips L) (rest : List Bool)
      → ips me ≡ jps me
      → concerns me s ≡ true
      → answer me s ips rest ≡ answer me s jps rest
  unfolding serve
  answer-own me (request r now) ips jps rest e h =
      let same : ips (ip_of r) ≡ jps (ip_of r) =
        subst (λ a. ips a ≡ jps a) (sym ((eq_iff (ip_of r) me).0 h)) e in
      rw h (rw same)
  answer-own me (tick now) ips jps rest e h = refl

  answer-other :
      (me : String) (s : Step) (ips : Ips L) (rest : List Bool)
      → concerns me s ≡ false
      → answer me s ips rest ≡ rest
  answer-other me (request r now) ips rest h = rw h
  answer-other me (tick now) ips rest h = absurd (ground arith)

  -- What an address is answered depends on its own requests and the sweeps alone, and on its own
  -- entry: the requests of other addresses, between them or before, change nothing.
  pub answers-select :
      (me : String) (steps : List Step) (ips jps : Ips L)
      → ips me ≡ jps me
      → answers me steps ips ≡ answers me (select (concerns me) steps) jps
  answers-select me [] ips jps e = refl
  answers-select me (s ∷ steps) ips jps e = elim (Bool-cases (concerns me s)) [
    | inl y ↦ rw y (
        ap (answer me s ips)
          (answers-select me steps (after s ips) (after s jps) (after-own me s ips jps e y))
        ∙ answer-own me s ips jps _ e y)
    | inr n ↦ rw n (
        answer-other me s ips _ n
        ∙ answers-select me steps (after s ips) jps (after-other me s ips n ∙ e))
  ]
