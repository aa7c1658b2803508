-- ===== src/Walk.antt =====
-- The callbacks that the graph walker runs on each vertex: `applyWalkFun` of
-- pkg/engine/operation/apply.go, which `destroyWalkFun` of destory.go calls too, and
-- `previewWalkFun` of preview.go. They return the diagnostics that they append.
pub mod Swallowed
pub mod Quiet
use kusion.Base.{String, Option, none, some, List, [], ◌∷◌, ◌++◌}
use kusion.Status.{Status}
use kusion.Control.{Outcome, ok, failed, panicked}
use kusion.Operation.{Operation, Message, OpResult, started, success, failed_result}
use kusion.Node.{ResourceNode, Engine, Run, execute}

pub data Vertex : Type 0 where
  root : Vertex
  resource_node : ResourceNode → Vertex

abbrev pub send : String → OpResult → Operation → Operation
send id r o = record o { messages = o.messages ++ record { resource_id = id; op_result = r } ∷ [] }

-- What the walker sees of a run: the statuses of the diagnostics, the operation and the world.
abbrev pub Walked : Type 0 → Type 0
Walked W = List Status × Operation × W

module _ {W : Type 0} (eng : Engine W) where
  -- A panic is recovered into the local status. The diagnostics were to be appended after it, so
  -- none are, and no message says that the node failed.
  report_apply : String → Outcome (Unit {0}) × Run W → Walked W
  report_apply id (ok u, run) = ([], send id success run.op, run.world)
  report_apply id (failed s, run) = (s ∷ [], send id failed_result run.op, run.world)
  report_apply id (panicked p, run) = ([], run.op, run.world)

  unfoldable pub apply_walk_fun : Option Vertex → Operation → W → Walked W
  unfolding report_apply
  apply_walk_fun none o w = ([], o, w)
  apply_walk_fun (some root) o w = ([], o, w)
  apply_walk_fun (some (resource_node n)) o w =
      report_apply n.id (execute eng (record { op = send n.id started o; node = n; world = w }))

  report_preview : Outcome (Unit {0}) × Run W → Walked W
  report_preview (ok u, run) = ([], run.op, run.world)
  report_preview (failed s, run) = (s ∷ [], run.op, run.world)
  report_preview (panicked p, run) = ([], run.op, run.world)

  unfoldable pub preview_walk_fun : Option Vertex → Operation → W → Walked W
  unfolding report_preview
  preview_walk_fun none o w = ([], o, w)
  preview_walk_fun (some root) o w = ([], o, w)
  preview_walk_fun (some (resource_node n)) o w =
      report_preview (execute eng (record { op = o; node = n; world = w }))
