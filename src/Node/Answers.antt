-- ===== src/Node/Answers.antt =====
-- What the runtime call of a node returns is under the node's key.
use kusion.Base.{String, Option, none, some, ◌≡◌, ◌⊎◌, inl, inr, refl, ap, ◌∙◌, arith}
use kusion.Control.{ok, unless_err-eq-ok, bind-eq-ok}
use kusion.Models.{Resource}
use kusion.Change.{ActionType, undefined, un_change, create, update, delete}
use kusion.Runtime.{Runtime, Response, IsHonest}
use kusion.Node.{
  Run, ThreeWay, call_for, call_without, call_runtime, real_apply, keep_or_import, import_answer,
  apply_answer,
}
use kusion.Node.Keyed.{IsOwn}

import_answer-resource :
    (o : Option Response) (res : Option Resource)
    → import_answer o ≡ ok res
    → (response : Response) × (o ≡ some response) × (response.resource ≡ res)
unfolding import_answer
import_answer-resource none res h = cc
import_answer-resource (some response) res h =
    let f = unless_err-eq-ok response.status (ok response.resource) res h in (response, refl, (cc))

pub apply_answer-resource :
    (response : Response) (res : Option Resource)
    → apply_answer response ≡ ok res
    → response.resource ≡ res
unfolding apply_answer
apply_answer-resource response res h =
    let f = unless_err-eq-ok response.status (ok response.resource) res h in cc

module _ {W : Type 0} where
  real_apply-own :
      (key : String) (rt : Runtime W) (three : ThreeWay) (s : Run W) (res : Option Resource)
      (p r : Resource)
      → IsHonest rt
      → IsOwn key three
      → three.0 ≡ some p
      → (real_apply three rt s).0 ≡ ok res
      → res ≡ some r
      → r.id ≡ key
  unfolding real_apply
  real_apply-own key rt (planed, prior, live) s res p r hon own x h e =
      let (response, a, f) = bind-eq-ok (rt.apply _ s.world).0 apply_answer h in
      let g : response.resource ≡ res = cc (apply_answer-resource response res f) in
      hon.apply_own _ s.world p r response refl x a (g ∙ e) ∙ own.planed p x

  keep_or_import-own :
      (key : String) (rt : Runtime W) (three : ThreeWay) (s : Run W) (res : Option Resource)
      (p r : Resource)
      → IsHonest rt
      → IsOwn key three
      → three.0 ≡ some p
      → (keep_or_import three rt s).0 ≡ ok res
      → res ≡ some r
      → r.id ≡ key
  unfolding keep_or_import
  keep_or_import-own key rt (planed, some q, live) s res p r hon own x h e = own.prior r (cc)
  keep_or_import-own key rt (none, none, live) s res p r hon own x h e = cc
  keep_or_import-own key rt (some n, none, live) s res p r hon own x h e =
      let (answer, a, i) = bind-eq-ok (rt.import_resource (some n) s.world).0 import_answer h in
      let (response, o, f) = import_answer-resource answer res i in
      hon.import_own n r s.world response (a ∙ ap ok o) (f ∙ e) ∙ own.planed n refl

  call_for-own :
      (a : ActionType) (key : String) (rt : Runtime W) (three : ThreeWay) (s : Run W)
      (res : Option Resource) (r : Resource)
      → IsHonest rt
      → IsOwn key three
      → (a ≡ delete) ⊎ ((p : Resource) × (three.0 ≡ some p))
      → (call_for a three rt s).0 ≡ ok res
      → res ≡ some r
      → r.id ≡ key
  unfolding call_for
  call_for-own undefined key rt three s res r hon own x h e = cc
  call_for-own delete key rt (planed, prior, live) s res r hon own x h e = ground arith
  call_for-own un_change key rt three s res r hon own (inr (p, f)) h e =
      keep_or_import-own key rt three s res p r hon own f h e
  call_for-own un_change key rt three s res r hon own (inl f) h e = cc
  call_for-own create key rt three s res r hon own (inr (p, f)) h e =
      real_apply-own key rt three s res p r hon own f h e
  call_for-own create key rt three s res r hon own (inl f) h e = cc
  call_for-own update key rt three s res r hon own (inr (p, f)) h e =
      real_apply-own key rt three s res p r hon own f h e
  call_for-own update key rt three s res r hon own (inl f) h e = cc

  call_without-own :
      (a : ActionType) (key : String) (three : ThreeWay) (s : Run W) (res : Option Resource)
      (r : Resource)
      → IsOwn key three
      → (a ≡ delete) ⊎ ((p : Resource) × (three.0 ≡ some p))
      → (call_without a three s).0 ≡ ok res
      → res ≡ some r
      → r.id ≡ key
  unfolding call_without
  call_without-own undefined key three s res r own x h e = cc
  call_without-own un_change key (planed, some q, live) s res r own x h e = own.prior r (cc)
  call_without-own un_change key (planed, none, live) s res r own x h e = cc
  call_without-own create key three s res r own x h e = cc
  call_without-own update key three s res r own x h e = cc
  call_without-own delete key three s res r own x h e = cc

  -- What the runtime call of a node returns is under the node's key.
  pub call_runtime-own :
      (key : String) (found : Option (Runtime W)) (three : ThreeWay) (s : Run W)
      (res : Option Resource) (r : Resource)
      → ((rt : Runtime W) → found ≡ some rt → IsHonest rt)
      → IsOwn key three
      → (s.node.action ≡ delete) ⊎ ((p : Resource) × (three.0 ≡ some p))
      → (call_runtime three found s).0 ≡ ok res
      → res ≡ some r
      → r.id ≡ key
  unfolding call_runtime
  call_runtime-own key none three s res r hon = call_without-own s.node.action key three s res r
  call_runtime-own key (some rt) three s res r hon =
      call_for-own s.node.action key rt three s res r (hon rt refl)
