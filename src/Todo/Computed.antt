-- ===== src/Todo/Computed.antt =====
-- The state that applyOp of src/todo-core.ts computes, apart from which object holds it.
use steak_pi.Prelude.{String, ◌≡◌, subst, Option, none, some, List, arith}
use steak_pi.Todo.{
  Field, TodoState, Result, ◌>>=◌, Transition, TodoOp, unsupported_op, ok, throw, init, transition,
  append, view, unsupported,
}
use steak_pi.Todo.Ops.{
  in_place, on_copy, init_op, append_op, single_transition, bulk_change, bulk_names,
  apply_transition, apply_op,
}
use steak_pi.Todo.Invariant.{Returns}

module _ (P : TodoState → Type 0) where
  pub Returns-ok : (r : Result TodoState) (s : TodoState) → Returns P r → r ≡ ok s → P s
  Returns-ok (ok t) s h e = subst P (cc) h
  Returns-ok (throw x) s h e = cc

-- What a reply returns.
in_place-ok :
    (s s' : TodoState) (r : Result TodoState) (out : String)
    → (in_place s r).1 ≡ ok (s', out)
    → r ≡ ok s'
unfolding in_place
in_place-ok s s' (ok t) out h = ground arith
in_place-ok s s' (throw e) out h = cc

on_copy-ok :
    (s s' : TodoState) (r : Result TodoState) (out : String)
    → (on_copy s r).1 ≡ ok (s', out)
    → r ≡ ok s'
unfolding on_copy
on_copy-ok s s' (ok t) out h = ground arith
on_copy-ok s s' (throw e) out h = cc

-- The state that a call computes, before it is put in a reply.
unfoldable pub computed : TodoState → TodoOp → Result TodoState
computed s (init list) = init_op s list
computed s (transition op items task phase reason) = do
  names ← bulk_names items task phase reason
  elim names [
    | none ↦ single_transition s op task phase reason
    | some batch ↦ bulk_change s op batch reason
  ]
computed s (append name contents) = append_op s name contents
computed s view = ok s
computed s unsupported = throw unsupported_op

apply_transition-computed :
    (s s' : TodoState) (op : Transition) (names : Result (Option (List String)))
    (task phase reason : Field) (out : String)
    → (apply_transition s op names task phase reason).1 ≡ ok (s', out)
    → (names >>= λ found. elim found [
      | none ↦ single_transition s op task phase reason
      | some batch ↦ bulk_change s op batch reason
    ])
      ≡ ok s'
unfolding apply_transition
apply_transition-computed s s' op (throw e) task phase reason out h = cc
apply_transition-computed s s' op (ok none) task phase reason out h =
    in_place-ok s s' (single_transition s op task phase reason) out h
apply_transition-computed s s' op (ok (some names)) task phase reason out h =
    on_copy-ok s s' (bulk_change s op names reason) out h

pub apply_op-computed :
    (s s' : TodoState) (op : TodoOp) (out : String)
    → (apply_op s op).1 ≡ ok (s', out)
    → computed s op ≡ ok s'
unfolding apply_op computed
apply_op-computed s s' (init list) out h = on_copy-ok s s' (init_op s list) out h
apply_op-computed s s' (transition op items task phase reason) out h =
    apply_transition-computed s s' op (bulk_names items task phase reason) task phase reason out h
apply_op-computed s s' (append name contents) out h =
    in_place-ok s s' (append_op s name contents) out h
apply_op-computed s s' view out h = in_place-ok s s' (ok s) out h
apply_op-computed s s' unsupported out h = cc
