-- ===== src/Operations/Dry.antt =====
-- A whole preview, of pkg/engine/operation/preview.go, only reads and dry-runs.
use kusion.Base.{String, Option, some, List, ◌≡◌}
use kusion.Base.GoMap.{GoMap, get}
use kusion.Control.{
  Outcome, ok, failed, panicked, Keeps, Keeps-bind, Exec, continue, value, OnOk, OnOk-bind,
  OnOk-any, ◌>>=◌,
}
use kusion.Models.{Resource}
use kusion.Operation.{Operation, Request, init_states}
use kusion.Runtime.{Runtime}
use kusion.Runtimes.{InitFn, runtimes}
use kusion.Runtimes.Started.{IsStarted, runtimes-IsStarted}
use kusion.Node.Previewing.{SurvivesDryRun, IsPreview}
use kusion.Walk.{Walked, preview_walk_fun}
use kusion.Walk.Quiet.{IsQuiet, preview_walk_fun-IsQuiet}
use kusion.Graph
use kusion.Operations.{
  Setup, walk_operation, walk_graph, prepare, checked, preview_plan, preview_body, preview, recover,
  engine_of, vertex_of, Plan, with_prior,
}

-- What the engine relies on in the walker: it changes nothing but by its callback.
pub record OnlyCalls {W G : Type 0} (setup : Setup W G) : Type 1 where
  pub keeps :
      (P : Operation → W → Type 0) (call : Graph.Vertex → Operation → W → Walked W)
      → ((v : Graph.Vertex) (o : Operation) (w : W) → P o w → P (call v o w).1 (call v o w).2)
      → (g : Option G) (o : Operation) (w : W) → P o w
      → P (setup.walk call g o w).1 (setup.walk call g o w).2

-- `Q` is kept by all that a preview calls: reading the latest state, and the reads and dry runs of any
-- runtime that it may start.
pub record SurvivesPreview {W G : Type 0} (Q : W → Type 0) (setup : Setup W G) : Type 0 where
  pub latest :
      (request : Request) (w : W)
      → Q w
      → Q (init_states setup.storage setup.copy setup.release request w).1
  pub started :
      (t : String) (init : InitFn W) (w : W) (rt : Runtime W)
      → get t setup.support ≡ some init
      → init w ≡ value rt
      → SurvivesDryRun Q rt

module _ {W G : Type 0} (Q : W → Type 0) (setup : Setup W G) where
  continue-on :
      {A B : Type 0} (R : A → Type 0) (r : Outcome A × W) (f : A → Exec W B)
      → Q r.1
      → OnOk R r.0
      → ((a : A) → R a → Keeps Q (f a))
      → Q (continue r f).1
  continue-on R (ok a, w) f h on k = (k a on).at w h
  continue-on R (failed e, w) f h on k = h
  continue-on R (panicked p, w) f h on k = h

  abbrev AllSurvive : GoMap (Runtime W) → Type 0
  AllSurvive rts = (t : String) (rt : Runtime W) → get t rts ≡ some rt → SurvivesDryRun Q rt

  walk_graph-Q :
      (setup_calls : OnlyCalls setup) (rts : GoMap (Runtime W)) (plan : Plan setup) (o : Operation)
      → AllSurvive rts
      → IsPreview o.operation_type
      → Keeps Q (walk_graph setup (preview_walk_fun (engine_of setup rts)) plan o)
  unfolding walk_graph
  walk_graph-Q calls rts (g, specs, priors) o survive ty = record {
    at = λ w h.
        (calls.keeps (IsQuiet Q)
          (λ v. preview_walk_fun (engine_of setup rts) (vertex_of setup specs priors v))
          (λ v.
            preview_walk_fun-IsQuiet Q (engine_of setup rts) survive
              (vertex_of setup specs priors v))
          g o w (ty, h)).1;
  }

  prepare-Q :
      (survives : SurvivesPreview Q setup) (resources : Option (List Resource))
      (plan : Outcome (Plan setup)) (w : W)
      → OnOk (λ p. AllSurvive p.0) (prepare setup resources plan w).0
  unfolding prepare
  prepare-Q survives resources plan w =
      OnOk-bind (IsStarted setup.support setup.visit w resources)
        (λ (p : GoMap (Runtime W) × Plan setup). AllSurvive p.0)
        (runtimes setup.support setup.visit w resources) (λ rts. plan >>= λ p. ok (rts, p))
        (runtimes-IsStarted setup.support setup.visit w resources)
        (λ rts started.
          OnOk-bind (λ p. Unit {0}) (λ (p : GoMap (Runtime W) × Plan setup). AllSurvive p.0) plan
            (λ p. ok (rts, p)) (OnOk-any plan)
            (λ p _ t rt e.
              let (init, listed_so, starts) = started.1 t rt e in
              survives.started t init w rt listed_so starts))

  preview_body-Q :
      OnlyCalls setup
      → SurvivesPreview Q setup
      → (request : Request) (o : Operation) → IsPreview o.operation_type
      → Keeps Q (preview_body setup request o)
  unfolding preview_body checked prepare walk_operation
  preview_body-Q calls survives request o ty =
      Keeps-bind (checked setup request) _ (record { at = λ w h. h })
        λ sp.
          Keeps-bind (init_states setup.storage setup.copy setup.release request) _
            (record { at = survives.latest request })
            λ states. record {
              at = λ w h.
                  continue-on (λ (p : GoMap (Runtime W) × Plan setup). AllSurvive p.0)
                    (prepare setup (with_prior setup sp states.0)
                      (preview_plan setup o.operation_type sp states.0) w)
                    _ h
                    (prepare-Q survives (with_prior setup sp states.0)
                      (preview_plan setup o.operation_type sp states.0) w)
                    (λ p survive.
                      Keeps-bind (walk_graph setup (preview_walk_fun (engine_of setup p.0)) p.1 _) _
                        (walk_graph-Q calls p.0 p.1 _ survive ty)
                        (λ o'. record { at = λ w' h'. h' }));
            }

  recover-Q : {A : Type 0} (prefix : String) (r : Outcome A × W) → Q r.1 → Q (recover prefix r).1
  unfolding recover
  recover-Q prefix (ok a, w) h = h
  recover-Q prefix (failed e, w) h = h
  recover-Q prefix (panicked p, w) h = h

-- What is true of the world before a preview, and is kept by reading the latest state and by the reads
-- and dry runs of every runtime that may be started, is true after the preview, whatever it returns:
-- a preview does nothing else to the infrastructure or to the recorded state.
pub preview-is_dry :
    {W G : Type 0} (Q : W → Type 0) (setup : Setup W G) (request : Request) (o : Operation) (w : W)
    → OnlyCalls setup
    → SurvivesPreview Q setup
    → IsPreview o.operation_type
    → Q w
    → Q (preview setup request o w).1
unfolding preview
preview-is_dry Q setup request o w calls survives ty h =
    recover-Q Q setup "preview panic:" (preview_body setup request o w)
      ((preview_body-Q Q setup calls survives request o ty).at w h)
