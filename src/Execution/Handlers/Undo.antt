-- ===== src/Execution/Handlers/Undo.antt =====
-- The plans of the shipped handlers undo what the handlers did to the files.
use eden_os.Prelude.{
  String, Bool, true, false, none, some, [], ◌∷◌, ◌≡◌, refl, sym, ap, ◌∙◌, arith, Bool-cases, inl,
  inr, subst, if◌then◌else◌,
}
use eden_os.Prelude.Dict
use eden_os.Effect.{Outcome, ok, eden, crash}
use eden_os.Enums.{file_write, file_delete}
use eden_os.Execution.Types.{Action, RollbackPlan, Preparation}
use eden_os.Execution.Verification.Scope.{Parts, parts_eq, parts_eq_sound}
use eden_os.Execution.Engine.Base.{Engine, handler_for, run_steps, apply_rollback, compensate_one}
use eden_os.Execution.Handlers.Base.{nothing, text_file, Machine, text_parameter, after}
use eden_os.Execution.Handlers.{
  path_of, execute_write, execute_delete, default_handlers, file_write_handler, file_delete_handler,
  deleted, wrote,
}
use eden_os.Execution.Handlers.Plans.{
  seen, look, IsFileSystem, Plan, no_plan, empty_plan, delete_plan, restore_plan, readable,
}

module _ {W : Type 0} (machine : Machine W) (engine : Engine W)
    (shipped : engine.handlers ≡ default_handlers machine engine.config)
    (fs : IsFileSystem machine engine.config) where
  pub find_write : handler_for engine file_write ≡ some (file_write_handler machine engine.config)
  unfolding handler_for Dict.get
  find_write = rw shipped refl

  pub find_delete :
      handler_for engine file_delete ≡ some (file_delete_handler machine engine.config)
  unfolding handler_for Dict.get
  find_delete = rw shipped refl

  abbrev at : String → Parts
  at raw = path_of machine engine.config raw

  -- A step of a plan is one call of the file system.
  run-delete :
      (raw : String) (step : Action) (w : W)
      → step.kind ≡ file_delete
      → text_parameter step "path" ≡ ok (machine.host.as_posix (at raw))
      → run_steps engine (step ∷ []) w ≡ machine.unlink (at raw) w
  unfolding run_steps execute_delete file_delete_handler
  run-delete raw step w kind path = ground (arith, find_delete, fs.stable raw)

  pub run-write :
      (raw : String) (step : Action) (previous : String) (w : W)
      → step.kind ≡ file_write
      → text_parameter step "path" ≡ ok (machine.host.as_posix (at raw))
      → text_parameter step "content" ≡ ok previous
      → run_steps engine (step ∷ []) w ≡ machine.write_text (at raw) previous w
  unfolding run_steps execute_write file_write_handler
  run-write raw step previous w kind path content = ground (arith, find_write, fs.stable raw)

  passes-delete :
      (raw : String) (w : W)
      → (machine.unlink (at raw) w).0 ≡ true
      → (q : Parts)
      → look machine (machine.unlink (at raw) w).1 q
        ≡ (if parts_eq (at raw) q then nothing else look machine w q)
  passes-delete raw w passed q = elim (Bool-cases (parts_eq (at raw) q)) [
    | inl here ↦
        let same = parts_eq_sound (at raw) q here in
        rw here (
          ap (λ p. look machine (machine.unlink (at raw) w).1 p) (sym same)
          ∙ ap seen (fs.unlinked (at raw) w passed))
    | inr other ↦ rw other (ap seen (fs.unlink_elsewhere (at raw) q w other))
  ]

  passes-write :
      (raw previous : String) (w : W)
      → (machine.write_text (at raw) previous w).0 ≡ true
      → (q : Parts)
      → look machine (machine.write_text (at raw) previous w).1 q
        ≡ (if parts_eq (at raw) q then seen (text_file previous) else look machine w q)
  passes-write raw previous w passed q = elim (Bool-cases (parts_eq (at raw) q)) [
    | inl here ↦
        let same = parts_eq_sound (at raw) q here in
        rw here (
          ap (λ p. look machine (machine.write_text (at raw) previous w).1 p) (sym same)
          ∙ ap seen (fs.written (at raw) previous w passed))
    | inr other ↦ rw other (ap seen (fs.write_elsewhere (at raw) q previous w other))
  ]

  pub compensate-plan :
      (p : Preparation) (plan : RollbackPlan) (w : W)
      → p.rollback ≡ some plan
      → compensate_one engine p w ≡ run_steps engine plan.steps w
  unfolding compensate_one apply_rollback
  compensate-plan p plan w e = ground arith

  pub compensate-none :
      (p : Preparation) (w : W) → p.rollback ≡ none → (compensate_one engine p w).0 ≡ false
  unfolding compensate_one
  compensate-none p w e = ground arith

  -- A plan for what stood at a path puts it back, in a world that differs there at most.
  pub compensates :
      (idle : Bool) (raw : String) (w w₂ : W) (p : Preparation)
      → Plan machine engine.config idle (at raw) w p.rollback
      → ((q : Parts) → parts_eq (at raw) q ≡ false → look machine w₂ q ≡ look machine w q)
      → (idle ≡ true → look machine w (at raw) ≡ nothing → look machine w₂ (at raw) ≡ nothing)
      → (compensate_one engine p w₂).0 ≡ true
      → (q : Parts) → look machine (compensate_one engine p w₂).1 q ≡ look machine w q
  compensates idle raw w w₂ p (no_plan e) off kept passed q = cc (compensate-none p w₂ e, passed)
  compensates idle raw w w₂ p (empty_plan description able e absent) off kept passed q =
      let ran = compensate-plan p _ w₂ e in
      let unmoved : (compensate_one engine p w₂).1 ≡ w₂ = unfold run_steps in ap (λ o. o.1) ran in
      ap (λ v. look machine v q) unmoved ∙ elim (Bool-cases (parts_eq (at raw) q)) [
        | inl here ↦
            let same = parts_eq_sound (at raw) q here in
            subst (λ r. look machine w₂ r ≡ look machine w r) same (kept able absent ∙ sym absent)
        | inr other ↦ off q other
      ]
  compensates idle raw w w₂ p (delete_plan description step e kind path absent) off kept passed q =
      let ran = compensate-plan p _ w₂ e ∙ run-delete raw step w₂ kind path in
      let went = passes-delete raw w₂ (sym (ap (λ o. o.0) ran) ∙ passed) q in
      ap (λ o. look machine o.1 q) ran ∙ elim (Bool-cases (parts_eq (at raw) q)) [
        | inl here ↦
            let same = parts_eq_sound (at raw) q here in
            ground (arith, went, here, ap (λ r. look machine w r) same, absent)
        | inr other ↦ ground (arith, went, other, off q other)
      ]
  compensates idle raw w w₂ p (restore_plan description step previous e kind path content held) off
        kept passed q =
      let ran = compensate-plan p _ w₂ e ∙ run-write raw step previous w₂ kind path content in
      let went = passes-write raw previous w₂ (sym (ap (λ o. o.0) ran) ∙ passed) q in
      ap (λ o. look machine o.1 q) ran ∙ elim (Bool-cases (parts_eq (at raw) q)) [
        | inl here ↦
            let same = parts_eq_sound (at raw) q here in
            ground (
              arith,
              went,
              here,
              ap (λ r. look machine w r) same,
              readable machine engine.config (at raw) w previous held,
            )
        | inr other ↦ ground (arith, went, other, off q other)
      ]

  wrote-world :
      (path : Parts) (s : String) (r : Bool × W) → (wrote machine engine.config path s r).1 ≡ r.1
  wrote-world path s (true, w) = refl
  wrote-world path s (false, w) = refl

  deleted-world :
      (path : Parts) (b : Bool) (r : Bool × W) → (deleted machine engine.config path b r).1 ≡ r.1
  deleted-world path b (true, w) = refl
  deleted-world path b (false, w) = refl

  -- What `execute` does to the files when the action names its path: it leaves the others alone.
  pub write_elsewhere :
      (raw : String) (a : Action) (p : Preparation) (w : W)
      → text_parameter a "path" ≡ ok raw
      → (q : Parts) → parts_eq (at raw) q ≡ false
      → look machine (execute_write machine engine.config a p w).1 q ≡ look machine w q
  unfolding execute_write
  write_elsewhere raw a p w path q other = rw path (spared (text_parameter a "content"))
    where
      spared :
          (content : Outcome String)
          → look machine
              (after content
                (λ s u. wrote machine engine.config (at raw) s (machine.write_text (at raw) s u))
                w).1
              q
            ≡ look machine w q
      spared (ok s) =
          ap (λ u. look machine u q) (wrote-world (at raw) s (machine.write_text (at raw) s w))
          ∙ ap seen (fs.write_elsewhere (at raw) q s w other)
      spared (eden e) = refl
      spared (crash t m) = refl

  delete-world :
      (raw : String) (a : Action) (p : Preparation) (w : W)
      → text_parameter a "path" ≡ ok raw
      → (execute_delete machine engine.config a p w).1 ≡ (machine.unlink (at raw) w).1
  unfolding execute_delete
  delete-world raw a p w path = rw path (deleted-world (at raw) _ (machine.unlink (at raw) w))

  pub delete_elsewhere :
      (raw : String) (a : Action) (p : Preparation) (w : W)
      → text_parameter a "path" ≡ ok raw
      → (q : Parts) → parts_eq (at raw) q ≡ false
      → look machine (execute_delete machine engine.config a p w).1 q ≡ look machine w q
  delete_elsewhere raw a p w path q other =
      ap (λ u. look machine u q) (delete-world raw a p w path)
      ∙ ap seen (fs.unlink_elsewhere (at raw) q w other)

  -- Deleting what is not there leaves it so.
  pub delete_absent :
      (raw : String) (a : Action) (p : Preparation) (w : W)
      → text_parameter a "path" ≡ ok raw
      → look machine w (at raw) ≡ nothing
      → look machine (execute_delete machine engine.config a p w).1 (at raw) ≡ nothing
  delete_absent raw a p w path absent =
      ap (λ u. look machine u (at raw)) (delete-world raw a p w path)
      ∙ elim (Bool-cases (machine.unlink (at raw) w).0) [
        | inl passed ↦ ap seen (fs.unlinked (at raw) w passed)
        | inr stuck ↦ ap seen (fs.unlink_failed (at raw) w stuck) ∙ absent
      ]
