-- ===== src/Agents/Routed.antt =====
-- Who takes a task that is dispatched by src/eden/agents/orchestrator.py.
use eden_os.Prelude.{
  ℕ, String, Bool, true, some, List, [], ◌∷◌, ◌++◌, not, ◌&&◌, str_eq, ◌≡◌, refl, sym, subst, ap,
  arith, ◌⊎◌, inl, inr, Bool-cases, All, All-append, ◌≤◌,
}
use eden_os.Prelude.Dict
use eden_os.Prelude.Dict.{Dict}
use eden_os.Prelude.Keyed.{
  Distinct, Distinct-put, Distinct-remove, All-put, All-remove, get-Distinct,
}
use eden_os.Prelude.Order.{str_leb_total, str_leb_trans}
use eden_os.Prelude.Sorting.{sort, Sorted, Order, All-sort, All-unsort}
use eden_os.Prelude.Selection.{sort-Sorted, All-map}
use eden_os.Effect.{Outcome, ok, eden, crash}
use eden_os.Core.Registry.{key}
use eden_os.Agents.{AgentConfig, Task, Suitability, AgentReport}
use eden_os.Agents.Base.{Agent}
use eden_os.Agents.Lifecycle.{run}
use eden_os.Agents.Orchestrator.{
  Entry, RoutingDecision, Orchestrator, before, unsuitable, is_willing, considered, sift, route,
  register, unregister, ran, to_winner, dispatch,
}

before-Order : Order before
before-Order = record {
  total = λ e f h. ground (arith, str_leb_total e.0 f.0, h);
  trans = λ e f g h k. ground (arith, str_leb_trans e.0 f.0 g.0, h, k);
}

-- The calls that change the roster.
pub data Call (W : Type 0) : Type 0 where
  registers : Agent W → (replace : Bool) → Call W
  unregisters : String → Call W

module _ {W : Type 0} (lower : String → String) where
  abbrev pub after : Dict (Agent W) → List (Call W) → Dict (Agent W)
  after agents [] = agents
  after agents (registers agent replace ∷ calls) =
      after (register lower agent replace agents).1 calls
  after agents (unregisters name ∷ calls) = after (unregister lower name agents).1 calls

  -- Every agent is found under its name, and under no other key.
  abbrev Roster : Dict (Agent W) → Type 0
  Roster d = Distinct d × All (λ e. key lower e.1.name ≡ e.0) d

  register-Roster :
      (a : Agent W) (replace : Bool) (d : Dict (Agent W))
      → Roster d
      → Roster (register lower a replace d).1
  unfolding register
  register-Roster a replace d h = elim (Bool-cases (str_eq (key lower a.name) "")) [
    | inl e ↦ rw e h
    | inr e ↦ elim (Bool-cases (Dict.has (key lower a.name) d && not replace)) [
      | inl f ↦ rw (e, f) h
      | inr f ↦
          rw (e, f)
            (
              Distinct-put (key lower a.name) a d h.0,
              All-put (λ k b. key lower b.name ≡ k) (key lower a.name) a d refl h.1,
            )
    ]
  ]

  unregister-Roster :
      (name : String) (d : Dict (Agent W)) → Roster d → Roster (unregister lower name d).1
  unfolding unregister
  unregister-Roster name d h = elim (Bool-cases (Dict.has (key lower name) d)) [
    | inl e ↦ rw e (
      Distinct-remove (key lower name) d h.0,
      All-remove (λ k b. key lower b.name ≡ k) (key lower name) d h.1,
    )
    | inr e ↦ rw e h
  ]

  after-Roster : (calls : List (Call W)) (d : Dict (Agent W)) → Roster d → Roster (after d calls)
  after-Roster [] d h = h
  after-Roster (registers a replace ∷ calls) d h =
      after-Roster calls (register lower a replace d).1 (register-Roster a replace d h)
  after-Roster (unregisters name ∷ calls) d h =
      after-Roster calls (unregister lower name d).1 (unregister-Roster name d h)

  found-All :
      (c d : Dict (Agent W))
      → All (λ e. Dict.get e.0 c ≡ some e.1) d
      → All (λ e. key lower e.1.name ≡ e.0) d
      → All (λ a. Dict.get (key lower a.name) c ≡ some a) (Dict.values d)
  found-All c [] g h = tt
  found-All c ((k, a) ∷ d) g h =
      (subst (λ j. Dict.get j c ≡ some a) (sym h.0) g.0, found-All c d g.1 h.1)

  Roster-found :
      (d : Dict (Agent W))
      → Roster d
      → All (λ a. Dict.get (key lower a.name) d ≡ some a) (Dict.values d)
  Roster-found d h = found-All d d (get-Distinct d h.0) h.1

module _ (floor : ℕ) where
  -- What holds of an answer that makes its agent a candidate.
  abbrev pub Candidate : (Suitability → Type 0) → Outcome Suitability → Type 0
  Candidate P (ok s) = is_willing floor s ≡ true → P s
  Candidate P (eden e) = Unit
  Candidate P (crash t m) = Unit

  unranked :
      (P : Suitability → Type 0) (name : String) (out : Outcome Suitability) (d : RoutingDecision)
      → All (λ e. P e.1) (considered floor name out d).ranked
      → All (λ e. P e.1) d.ranked × Candidate P out
  unranked P name (ok s) d h = elim (Bool-cases (is_willing floor s)) [
    | inl f ↦
        let g : All (λ e. P e.1) (d.ranked ++ (name, s) ∷ []) = rw f at h in
        let (front, back) = split d.ranked g in (front, λ _. back)
    | inr f ↦ (rw f at h, λ g. absurd (ground (arith, f, g)))
  ]
    where
      split : (l : List Entry) → All (λ e. P e.1) (l ++ (name, s) ∷ []) → All (λ e. P e.1) l × P s
      split [] g = (tt, g.0)
      split (e ∷ l) g = let r = split l g.1 in ((g.0, r.0), r.1)
  unranked P name (eden e) d h = (h, tt)
  unranked P name (crash t m) d h = (h, tt)

  sift-covers :
      {W : Type 0} (task : Task) (w : W) (P : Suitability → Type 0) (l : List (Agent W))
      (d : RoutingDecision)
      → All (λ e. P e.1) (sift floor task w l d).ranked
      → All (λ e. P e.1) d.ranked × All (λ a. Candidate P (a.can_handle task w)) l
  unfolding sift
  sift-covers task w P [] d h = (h, tt)
  sift-covers task w P (a ∷ l) d h =
      let ih = sift-covers task w P l (considered floor a.name (a.can_handle task w) d) h in
      let u = unranked P a.name (a.can_handle task w) d ih.0 in (u.0, (u.1, ih.1))

module _ {W : Type 0} (lower : String → String) (o : Orchestrator W) (task : Task) (w : W) where
  abbrev Offer : Entry → Type 0
  Offer e =
      (a : Agent W) × (Dict.get (key lower e.0) o.agents ≡ some a)
      × (a.can_handle task w ≡ ok e.1)
      × (is_willing o.config.min_suitability e.1 ≡ true)

  considered-Offer :
      (a : Agent W) (out : Outcome Suitability) (d : RoutingDecision)
      → a.can_handle task w ≡ out
      → Dict.get (key lower a.name) o.agents ≡ some a
      → All Offer d.ranked
      → All Offer (considered o.config.min_suitability a.name out d).ranked
  considered-Offer a (ok s) d e found h =
      elim (Bool-cases (is_willing o.config.min_suitability s)) [
        | inl f ↦ rw f (All-append Offer d.ranked ((a.name, s) ∷ []) h ((a, found, e, f), tt))
        | inr f ↦ rw f h
      ]
  considered-Offer a (eden x) d e found h = h
  considered-Offer a (crash t m) d e found h = h

  sift-Offer :
      (l : List (Agent W)) (d : RoutingDecision)
      → All (λ a. Dict.get (key lower a.name) o.agents ≡ some a) l
      → All Offer d.ranked
      → All Offer (sift o.config.min_suitability task w l d).ranked
  unfolding sift
  sift-Offer [] d g h = h
  sift-Offer (a ∷ l) d g h =
      sift-Offer l (considered o.config.min_suitability a.name (a.can_handle task w) d) g.1
        (considered-Offer a (a.can_handle task w) d refl g.0 h)

  -- The task ran with the best of the candidates.
  pub record IsBest (result : Outcome AgentReport × W) : Type 0 where
    pub name : String
    pub agent : Agent W
    pub suitability : Suitability
    pub registered : Dict.get name o.agents ≡ some agent
    pub answered : agent.can_handle task w ≡ ok suitability
    pub willing : is_willing o.config.min_suitability suitability ≡ true
    pub best :
        All
          (λ b.
            Candidate o.config.min_suitability
              (λ s. s.score ≤ suitability.score)
              (b.can_handle task w))
          (Dict.values o.agents)
    pub runs : result ≡ run agent task w

  -- No agent was a candidate, and nothing ran.
  abbrev pub Unroutable : Outcome AgentReport × W → Type 0
  Unroutable result =
      (result ≡ (eden unsuitable, w))
      × All (λ b. Candidate o.config.min_suitability (λ s. ⊥) (b.can_handle task w))
          (Dict.values o.agents)

  first-IsBest :
      (r : List Entry)
      → All Offer r
      → Sorted before r
      → ((P : Suitability → Type 0)
          → All (λ e. P e.1) r
          → All
              (λ b. Candidate o.config.min_suitability P (b.can_handle task w))
              (Dict.values o.agents))
      → Unroutable (to_winner lower o r task w) ⊎ IsBest (to_winner lower o r task w)
  first-IsBest [] offers sorted covers = inl (refl, covers (λ s. ⊥) tt)
  first-IsBest (e ∷ es) offers sorted covers =
      let (a, registered, answered, willing) = offers.0 in
      inr (record {
        name = key lower e.0;
        agent = a;
        suitability = e.1;
        registered = registered;
        answered = answered;
        willing = willing;
        best =
            covers (λ s. s.score ≤ e.1.score)
              (
                omega arith,
                All-map (λ f. before e f ≡ true) (λ f. f.1.score ≤ e.1.score)
                    (λ f h. ground (arith, h)) es sorted.0,
              );
        runs = ap (λ x. ran lower x task w) registered;
      })

-- Who takes a task, after any registrations and removals of agents. Either `dispatch` raises
-- `NoSuitableAgentError`, nothing ran, and no agent of the roster answers with a willing score that
-- reaches the floor; or the agent that ran is of the roster, answered so, and no agent of the roster
-- that answers so has a higher score. An agent whose `can_handle` raises stands in nobody's way.
pub dispatch-IsBest :
    {W : Type 0} (lower : String → String) (config : AgentConfig) (calls : List (Call W))
    (task : Task) (w : W)
    → let o : Orchestrator W = record { config = config; agents = after lower [] calls } in
      Unroutable lower o task w (dispatch lower o task "" w)
      ⊎ IsBest lower o task w (dispatch lower o task "" w)
unfolding dispatch route
dispatch-IsBest lower config calls task w =
    let o : Orchestrator _ = record { config = config; agents = after lower [] calls } in
    let start : RoutingDecision = record { ranked = []; declined = [] } in
    let r = (sift config.min_suitability task w (Dict.values o.agents) start).ranked in
    let offers =
      sift-Offer lower o task w (Dict.values o.agents) start
        (Roster-found lower o.agents (after-Roster lower calls [] (tt, tt))) tt in
    first-IsBest lower o task w (sort before r) (All-sort before (Offer lower o task w) r offers)
      (sort-Sorted before before-Order r)
      (λ P h.
        (sift-covers config.min_suitability task w P (Dict.values o.agents) start
          (All-unsort before (λ e. P e.1) r h)).1)
