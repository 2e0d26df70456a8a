-- ===== src/Execution/Handlers/Plans.antt =====
-- What the rollback plans of src/eden/execution/handlers.py hold, seen from the files.
use eden_os.Prelude.{String, Bool, true, false, Option, none, some, [], ◌∷◌, ◌≡◌, refl, arith}
use eden_os.Prelude.Dict
use eden_os.Prelude.Dict.{Dict}
use eden_os.Effect.{Outcome, ok, eden, crash}
use eden_os.Enums.{file_write, file_delete}
use eden_os.Execution.Types.{Value, Action, make_action, RollbackPlan, Preparation, ExecutionConfig}
use eden_os.Execution.Verification.Scope.{Parts, parts_eq}
use eden_os.Execution.Engine.Base.{prepared}
use eden_os.Execution.Handlers.Newlines.{normal, normal-normal}
use eden_os.Execution.Handlers.Base.{
  File, nothing, text_file, binary, Machine, text_parameter, after, exists, read_text_or_none,
  decoded,
}
use eden_os.Execution.Handlers.{path_of, prepare_write_at, prepare_delete_at, planned}

-- A file as a text reader sees it: line ends are all alike.
abbrev pub seen : File → File
seen nothing = nothing
seen (text_file s) = text_file (normal s)
seen (binary b) = binary b

-- The files of the machine, as a text reader sees them.
abbrev pub look : {W : Type 0} → Machine W → W → Parts → File
look machine w path = seen (machine.file path w)

-- What the handlers rely on: a resolved path resolves to itself; a write that passes leaves its
-- text; an unlink that passes leaves nothing, and one that fails leaves the file; and both leave
-- all other files alone.
pub record IsFileSystem {W : Type 0} (machine : Machine W) (config : ExecutionConfig) : Type 0 where
  pub stable :
      (raw : String)
      → path_of machine config (machine.host.as_posix (path_of machine config raw))
        ≡ path_of machine config raw
  pub written :
      (path : Parts) (s : String) (w : W)
      → (machine.write_text path s w).0 ≡ true
      → machine.file path (machine.write_text path s w).1 ≡ text_file s
  pub write_elsewhere :
      (path other : Parts) (s : String) (w : W)
      → parts_eq path other ≡ false
      → machine.file other (machine.write_text path s w).1 ≡ machine.file other w
  pub unlinked :
      (path : Parts) (w : W)
      → (machine.unlink path w).0 ≡ true
      → machine.file path (machine.unlink path w).1 ≡ nothing
  pub unlink_failed :
      (path : Parts) (w : W)
      → (machine.unlink path w).0 ≡ false
      → machine.file path (machine.unlink path w).1 ≡ machine.file path w
  pub unlink_elsewhere :
      (path other : Parts) (w : W)
      → parts_eq path other ≡ false
      → machine.file other (machine.unlink path w).1 ≡ machine.file other w

module _ {W : Type 0} (machine : Machine W) (config : ExecutionConfig) where
  -- A rollback plan for what was found at `path` in the world `w`; `idle` says whether the handler may
  -- find nothing to undo.
  pub data Plan (idle : Bool) (path : Parts) (w : W) (r : Option RollbackPlan) : Type 0 where
    no_plan : r ≡ none → Plan idle path w r
    empty_plan :
        (description : String)
        → idle ≡ true
        → r ≡ some (record { steps = []; description = description })
        → look machine w path ≡ nothing
        → Plan idle path w r
    delete_plan :
        (description : String) (step : Action)
        → r ≡ some (record { steps = step ∷ []; description = description })
        → step.kind ≡ file_delete
        → text_parameter step "path" ≡ ok (machine.host.as_posix path)
        → look machine w path ≡ nothing
        → Plan idle path w r
    restore_plan :
        (description : String) (step : Action) (previous : String)
        → r ≡ some (record { steps = step ∷ []; description = description })
        → step.kind ≡ file_write
        → text_parameter step "path" ≡ ok (machine.host.as_posix path)
        → text_parameter step "content" ≡ ok previous
        → read_text_or_none machine path w ≡ some previous
        → Plan idle path w r

  made :
      (fresh : String) (a s : Action)
      → make_action fresh a ≡ ok s
      → (s.kind ≡ a.kind) × (s.parameters ≡ a.parameters)
  unfolding make_action
  made fresh a s h = ground arith

  module _ (path : Parts) (w : W) where
    Plan-of :
        {idle : Bool} (o : Outcome Action) (description : String) (notes : Dict Value)
        → ((s : Action)
            → o ≡ ok s
            → Plan idle path w (some (record { steps = s ∷ []; description = description })))
        → Plan idle path w
            (prepared (after o (planned machine config description notes) w).0).rollback
    Plan-of (ok s) description notes f = f s refl
    Plan-of (eden e) description notes f = no_plan refl
    Plan-of (crash t m) description notes f = no_plan refl

    absent : exists machine path w ≡ false → look machine w path ≡ nothing
    unfolding exists
    absent h = ground arith

    readable_file :
        (previous : String) (f : File)
        → decoded machine f ≡ some previous
        → seen f ≡ seen (text_file previous)
    readable_file previous nothing h = cc
    readable_file previous (text_file raw) h = cc (normal-normal raw, h)
    readable_file previous (binary b) h = cc

    pub readable :
        (previous : String)
        → read_text_or_none machine path w ≡ some previous
        → look machine w path ≡ seen (text_file previous)
    unfolding read_text_or_none
    readable previous h = readable_file previous (machine.file path w) h

    abbrev pub rollback_of : Outcome Preparation × W → Option RollbackPlan
    rollback_of (outcome, v) = (prepared outcome).rollback

    pub Plan-write :
        (a : Action) (there : Bool) (text : Option String)
        → exists machine path w ≡ there
        → read_text_or_none machine path w ≡ text
        → Plan false path w (rollback_of (prepare_write_at machine config a path there text w))
    unfolding text_parameter Dict.get
    Plan-write a false text gone read = Plan-of _ _ _ (λ s e.
        let (kind, parameters) = made _ _ s e in
        delete_plan _ s refl kind (rw parameters refl) (absent gone))
    Plan-write a true none there unread = no_plan refl
    Plan-write a true (some previous) there read = Plan-of _ _ _ (λ s e.
        let (kind, parameters) = made _ _ s e in
        restore_plan _ s previous refl kind (rw parameters refl) (rw parameters refl) read)

    pub Plan-delete :
        (a : Action) (there dir : Bool) (text : Option String)
        → exists machine path w ≡ there
        → read_text_or_none machine path w ≡ text
        → Plan true path w (rollback_of (prepare_delete_at machine config a path there dir text w))
    unfolding text_parameter Dict.get
    Plan-delete a false dir text gone read = empty_plan _ refl refl (absent gone)
    Plan-delete a true true text there read = no_plan refl
    Plan-delete a true false none there unread = no_plan refl
    Plan-delete a true false (some previous) there read = Plan-of _ _ _ (λ s e.
        let (kind, parameters) = made _ _ s e in
        restore_plan _ s previous refl kind (rw parameters refl) (rw parameters refl) read)
