-- ===== src/Management/MachineRequest/Copy.antt =====
-- A copy of a request for virtual machines.
use Prim.Native.String
use Prim.Native.String.{String}
use Prim.Native.Nat
use Prim.Native.Nat.{Ordering}
use Prim.Native.String.compare
use Prim.Native.Char.{code}
use docker_sim.Prelude.{
  ℕ, suc, ◌≡◌, refl, sym, ap, ◌∙◌, Bool, true, false, ◌&&◌, none, some, List, [], ◌∷◌, ◌++◌,
  ==ℤ_refl, ◌==◌, ==_refl, length, map, same_name, arith,
}
use mathlib.Core.List.{append-nil, append_assoc}
use docker_sim.Management.MachineRequest.{
  UserVmType, RequestVm, new_request_of, new_request_vm, set_vector_vm, push_selection,
  set_new_selection, copy_selections, dup, compare_req,
}

code_refl : (n : ℕ) → Nat.compare n n ≡ Ordering.eq
code_refl n = ground arith

compare_refl : (s : String) → String.compare s s ≡ Ordering.eq
compare_refl String.[] = refl
compare_refl (String.◌∷◌ c s) =
    compare.cons-cons c c s s
    ∙ ap (λ o. String.then o (String.compare s s)) (code_refl (code c))
    ∙ compare_refl s

same_name_refl : (s : String) → same_name s s ≡ true
unfolding same_name
same_name_refl s = ap (λ o. elim o [ Ordering.eq ↦ true | _ ↦ false ]) (compare_refl s)

-- The selection that a copy has: a new element type with the name.
abbrev pub renewed : UserVmType → UserVmType
renewed t = record {
  type = record { name = t.type.name; parameters = none };
  quantity = t.quantity;
}

length-map : (ts : List UserVmType) → length (map renewed ts) ≡ length ts
length-map [] = refl
length-map (t ∷ ts) = ap suc (length-map ts)

copy_selections-append :
    (ts : List UserVmType) (r : RequestVm)
    → copy_selections ts r
      ≡ record r { vms_to_be_selected = r.vms_to_be_selected ++ map renewed ts }
unfolding copy_selections set_new_selection push_selection
copy_selections-append [] r =
    ap (λ l. record r { vms_to_be_selected = l }) (sym (append-nil r.vms_to_be_selected))
copy_selections-append (t ∷ ts) r =
    copy_selections-append ts (set_new_selection t.type.name t.quantity r)
    ∙ ap (λ l. record r { vms_to_be_selected = l })
        (append_assoc r.vms_to_be_selected (renewed t ∷ []) (map renewed ts))

filled :
    (vms : List ℕ) (r : RequestVm)
    → elim vms [
      | [] ↦ record r { vm_set = [] }
      | vm ∷ vms ↦ set_vector_vm (vm ∷ vms) (record r { vm_set = [] })
    ]
      ≡ record r { vm_set = vms }
unfolding set_vector_vm
filled [] r = refl
filled (vm ∷ vms) r = refl

and_last : {a b : Bool} → b ≡ true → (a && b) ≡ a
and_last {a = true} h = h
and_last {a = false} h = refl

-- The request without its connections, and with new element types.
abbrev pub copied : RequestVm → RequestVm
copied r = record r { connections = []; vms_to_be_selected = map renewed r.vms_to_be_selected }

-- A copy of a request is the request without its connections, and its selection keeps the names
-- and the quantities, but none of the numbers of an element type. The copy compares as equal to the
-- request just when the request has no connection, whatever the numbers were.
pub dup-without_connections :
    (r : RequestVm)
    → (dup r ≡ copied r) × (compare_req r (some (dup r)) ≡ (0 == length r.connections))
unfolding dup new_request_vm new_request_of set_vector_vm compare_req
dup-without_connections r =
    let bare : RequestVm = record r { connections = []; vm_set = []; vms_to_be_selected = [] } in
    let is_copied : dup r ≡ copied r =
      ap (copy_selections r.vms_to_be_selected) (filled r.vm_set bare)
      ∙ copy_selections-append r.vms_to_be_selected (record bare { vm_set = r.vm_set }) in
    (
      is_copied,
      ap (λ q. compare_req r (some q)) is_copied
          ∙ rw
              (
                ==ℤ_refl r.operation,
                ==ℤ_refl r.user_id,
                ==ℤ_refl r.vm_id,
                ==ℤ_refl r.job_id,
                ==ℤ_refl r.times_enqueue,
                ==ℤ_refl r.state,
                same_name_refl r.ip,
                ==_refl (length r.vm_set),
                length-map r.vms_to_be_selected,
                ==_refl (length r.vms_to_be_selected),
              )
              (and_last refl),
    )
