-- ===== src/Walk/Quiet.antt =====
-- The callback of a preview's walk, `previewWalkFun` of pkg/engine/operation/preview.go, on one vertex.
use kusion.Base.{String, Option, none, some, ◌≡◌, refl}
use kusion.Control.{Outcome, ok, failed, panicked}
use kusion.States.{State}
use kusion.Operation.{Operation}
use kusion.Runtime.{Runtime}
use kusion.Node.{Run, Engine, execute}
use kusion.Node.Previewing.{SurvivesDryRun, IsPreview, IsDry, execute-IsDry}
use kusion.Walk.{Vertex, root, resource_node, report_preview, preview_walk_fun}

module _ {W : Type 0} (Q : W → Type 0) where
  abbrev pub IsQuiet : Operation → W → Type 0
  IsQuiet o w = IsPreview o.operation_type × Q w

  report_preview-IsQuiet :
      (eng : Engine W) (saved : State) (r : Outcome (Unit {0}) × Run W)
      → IsDry Q saved r.1
      → IsQuiet (report_preview eng r).1 (report_preview eng r).2
  unfolding report_preview
  report_preview-IsQuiet eng saved (ok u, run) d = (d.preview, d.world)
  report_preview-IsQuiet eng saved (failed s, run) d = (d.preview, d.world)
  report_preview-IsQuiet eng saved (panicked p, run) d = (d.preview, d.world)

  pub preview_walk_fun-IsQuiet :
      (eng : Engine W)
      → ((t : String) (rt : Runtime W) → eng.runtimes t ≡ some rt → SurvivesDryRun Q rt)
      → (v : Option Vertex) (o : Operation) (w : W) → IsQuiet o w
      → IsQuiet (preview_walk_fun eng v o w).1 (preview_walk_fun eng v o w).2
  unfolding preview_walk_fun
  preview_walk_fun-IsQuiet eng survives none o w h = h
  preview_walk_fun-IsQuiet eng survives (some root) o w h = h
  preview_walk_fun-IsQuiet eng survives (some (resource_node n)) o w h =
      report_preview-IsQuiet eng o.result_state
        (execute eng (record { op = o; node = n; world = w }))
        ((execute-IsDry Q o.result_state eng survives).at (record { op = o; node = n; world = w })
          (record { preview = h.0; world = h.1; state = refl }))
