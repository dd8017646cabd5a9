-- ===== src/Orchestrator/Evolution.antt =====
-- Every stored request moves along the edges of the state machine only.
use mathlib.Core.Path.{subst}
use mathlib.Core.Logic.{if_pos, if_neg}
use whatsapp_automatic_plann.Prelude.{
  String-discrete, sym, ap, ◌∙◌, ℕ, ◌≡◌, refl, String, Option, none, some, inl, inr, arith, ◌==◌,
  if◌then◌else◌,
}
use whatsapp_automatic_plann.Prelude.Dict.{lookup, lookup-insert, Each, insert-Each}
use whatsapp_automatic_plann.Workflow.Enums.{RequestState, received, Trigger}
use whatsapp_automatic_plann.Workflow.StateMachine.{next_state}
use whatsapp_automatic_plann.Workflow.Reaches.{Reaches, here, move, Reaches-trans}
use whatsapp_automatic_plann.Domain.Models.{Request, OwnerInteraction}
use whatsapp_automatic_plann.Errors.{Error, Action, Result, ok, err, after, Result-cases}
use whatsapp_automatic_plann.Persistence.Repository.{Repository, save_request}
use whatsapp_automatic_plann.Orchestrator.Base.{System, transition, in_world, on_repo}

same_value : {A : Type 0} (a b : A) → ok a ≡ ok b → a ≡ b
same_value a b e = cc

-- From one stored state to a later one: a request may be new, and does not vanish.
abbrev pub Later : Option RequestState → Option RequestState → Type 0
Later none none = Unit
Later none (some b) = Reaches received b
Later (some a) none = ⊥
Later (some a) (some b) = Reaches a b

pub Later-refl : (o : Option RequestState) → Later o o
Later-refl none = tt
Later-refl (some a) = here

pub Later-trans : (o p q : Option RequestState) → Later o p → Later p q → Later o q
Later-trans none none q h k = k
Later-trans none (some b) none h k = absurd k
Later-trans none (some b) (some c) h k = Reaches-trans h k
Later-trans (some a) none q h k = absurd h
Later-trans (some a) (some b) none h k = absurd k
Later-trans (some a) (some b) (some c) h k = Reaches-trans h k

-- A request is stored under its own id.
abbrev pub IsKeyed : Repository → Type 0
IsKeyed repo = Each (λ key r. r.id ≡ key) repo.requests

-- The state in which a request is stored.
abbrev pub state_in : Option Request → Option RequestState
state_in none = none
state_in (some r) = some r.state

module _ {W : Type 0} where
  abbrev pub stored : String → System W → Option RequestState
  stored id s = state_in (lookup id s.repo.requests)

  -- From one system to a later one, every request has moved along edges only, all but the one with
  -- the id `about` are as they were, and what was recorded of the owner's actions still is.
  pub record Evolves (about : String) (s₀ s : System W) : Type 0 where
    pub later : (id : String) → Later (stored id s₀) (stored id s)
    pub others :
        (id : String) → ¬ (id ≡ about) → lookup id s.repo.requests ≡ lookup id s₀.repo.requests
    pub keyed : IsKeyed s.repo
    pub clicks :
        (id : String) (i : OwnerInteraction)
        → lookup id s₀.repo.interactions ≡ some i
        → lookup id s.repo.interactions ≡ some i

  -- What a call that began at `s₀` ensures: the requests evolve, also when it raises, and `Q` holds
  -- of the result and the state when it returns.
  pub data Ensures {A : Type 0} (about : String) (s₀ : System W) (Q : A → System W → Type 0)
      : Result A × System W → Type 0 where
    returned : {a : A} {s : System W} → Evolves about s₀ s → Q a s → Ensures about s₀ Q (ok a, s)
    raised : {e : Error} {s : System W} → Evolves about s₀ s → Ensures about s₀ Q (err e, s)

  pub Ensures-Evolves :
      {about : String} {A : Type 0} {s₀ : System W} {Q : A → System W → Type 0}
      {r : Result A × System W}
      → Ensures about s₀ Q r
      → Evolves about s₀ r.1
  Ensures-Evolves (returned h q) = h
  Ensures-Evolves (raised h) = h

  pub Ensures-ok :
      {about : String} {A : Type 0} {s₀ : System W} {Q : A → System W → Type 0}
      {x : Result A × System W} {a : A}
      → Ensures about s₀ Q x
      → x.0 ≡ ok a
      → Q a x.1
  Ensures-ok {Q} (returned {a = b} {s} h q) e = subst (λ c. Q c s) (same_value b _ e) q
  Ensures-ok (raised h) e = cc

  pub Evolves-refl : {about : String} (s : System W) → IsKeyed s.repo → Evolves about s s
  Evolves-refl s h = record {
    later = λ id. Later-refl (stored id s);
    others = λ id n. refl;
    keyed = h;
    clicks = λ id i e. e;
  }

  -- The copy of a request that a method works on has the id, and is in the state that is stored.
  abbrev pub Tracks : String → Request → System W → Type 0
  Tracks about r s = (r.id ≡ about) × (stored r.id s ≡ some r.state)

  pub after-Ensures :
      {about : String} {A B : Type 0} {s₀ : System W} {Q : A → System W → Type 0}
      {R : B → System W → Type 0} (x : Result A × System W) (f : A → Action (System W) B)
      → Ensures about s₀ Q x
      → ((a : A) (s : System W) → Evolves about s₀ s → Q a s → Ensures about s₀ R (f a s))
      → Ensures about s₀ R (after x f)
  unfolding after
  after-Ensures x f (returned {a} {s} h q) k = k a s h q
  after-Ensures x f (raised h) k = raised h

  saved-Later :
      (s : System W) (r : Request) (id : String)
      → Later (stored r.id s) (some r.state)
      → Later (stored id s) (state_in (if id == r.id then some r else lookup id s.repo.requests))
  saved-Later s r id e = elim (String-discrete id r.id) [
    | yes p ↦ rw (if_pos _ p) (subst (λ k. Later (stored k s) (some r.state)) (sym p) e)
    | no n ↦ rw (if_neg _ n) (Later-refl (stored id s))
  ]

  saved_other :
      (s : System W) (r : Request) (id : String)
      → ¬ (id ≡ r.id)
      → (if id == r.id then some r else lookup id s.repo.requests) ≡ lookup id s.repo.requests
  saved_other s r id n = rw (if_neg _ n) refl

  -- To save a request in a state that its stored state can reach.
  pub save-Evolves :
      {about : String} (s₀ s : System W) (r : Request)
      → Evolves about s₀ s
      → Later (stored r.id s) (some r.state)
      → r.id ≡ about
      → Evolves about s₀ (record s { repo = save_request r s.repo })
  unfolding save_request
  save-Evolves {about} s₀ s r h e n = record {
    later = λ id.
        Later-trans (stored id s₀) (stored id s) _ (h.later id)
          (rw lookup-insert (saved-Later s r id e));
    others = λ id other.
        rw lookup-insert (saved_other s r id (λ same. other (same ∙ n)) ∙ h.others id other);
    keyed = insert-Each (λ key r. r.id ≡ key) r.id r s.repo.requests refl h.keyed;
    clicks = h.clicks;
  }

  pub save-Tracks :
      (about : String) (s : System W) (r : Request)
      → r.id ≡ about
      → Tracks about r (record s { repo = save_request r s.repo })
  unfolding save_request
  save-Tracks about s r e = (e, rw lookup-insert (ground arith))

  -- `_transition` moves the stored request along an edge, and raises if there is none.
  pub transition-Ensures :
      {about : String} (s₀ s : System W) (r : Request) (t : Trigger) (now : ℕ)
      → Evolves about s₀ s
      → Tracks about r s
      → Ensures about s₀ (λ r' s'. Tracks about r' s') (transition r t now s)
  unfolding transition after on_repo
  transition-Ensures s₀ s r t now h e = elim (Result-cases (next_state r.state t)) [
    | inl (u, edge) ↦
        rw (edge, transition)
          (returned
            (save-Evolves s₀ s (record r { state = u; updated_at = now }) h
              (rw e.1 (move t here edge)) e.0)
            (save-Tracks _ s (record r { state = u; updated_at = now }) e.0))
    | inr (x, none_such) ↦ rw (none_such, transition) (raised h)
  ]

  -- `_transition` along a known edge does not raise.
  pub transition_moved :
      {about : String} (s₀ s : System W) (r : Request) (t : Trigger) (now : ℕ) {u : RequestState}
      → next_state r.state t ≡ ok u
      → Evolves about s₀ s
      → Tracks about r s
      → Ensures about s₀
          (λ r' s'. Tracks about r' s' × (r' ≡ record r { state = u; updated_at = now }))
          (transition r t now s)
  unfolding transition after on_repo
  transition_moved s₀ s r t now {u} edge h e =
      rw (edge, transition)
        (returned
          (save-Evolves s₀ s (record r { state = u; updated_at = now }) h
            (rw e.1 (move t here edge)) e.0)
          (save-Tracks _ s (record r { state = u; updated_at = now }) e.0, refl))

  -- A call of a service leaves the repository alone.
  pub in_world-Ensures :
      {about : String} {A : Type 0} (s₀ s : System W) (r : Request) (m : Action W A)
      → Evolves about s₀ s
      → Tracks about r s
      → Ensures about s₀ (λ _ s'. Tracks about r s') (in_world m s)
  unfolding in_world
  in_world-Ensures {about} {A} s₀ s r m h e = go (m s.world).0
    where
      go :
          (x : Result A)
          → Ensures about s₀ (λ _ s'. Tracks about r s') (x, record s { world = (m s.world).1 })
      go (ok a) =
          returned
            (record { later = h.later; others = h.others; keyed = h.keyed; clicks = h.clicks }) e
      go (err x) =
          raised (record { later = h.later; others = h.others; keyed = h.keyed; clicks = h.clicks })

  -- A change of the repository that keeps the requests and the actions.
  pub on_repo-Ensures :
      {about : String} (s₀ s : System W) (r : Request) (f : Repository → Repository)
      → (f s.repo).requests ≡ s.repo.requests
      → (f s.repo).interactions ≡ s.repo.interactions
      → Evolves about s₀ s
      → Tracks about r s
      → Ensures about s₀ (λ _ s'. Tracks about r s') (on_repo f s)
  unfolding on_repo
  on_repo-Ensures s₀ s r f same same' h e =
      returned
        (record {
          later = λ id.
              subst (λ d. Later (stored id s₀) (state_in (lookup id d))) (sym same) (h.later id);
          others = λ id other. ap (λ d. lookup id d) same ∙ h.others id other;
          keyed = subst (Each (λ key r. r.id ≡ key)) (sym same) h.keyed;
          clicks = λ id i k. subst (λ d. lookup id d ≡ some i) (sym same') (h.clicks id i k);
        })
        (e.0, subst (λ d. state_in (lookup r.id d) ≡ some r.state) (sym same) e.1)
