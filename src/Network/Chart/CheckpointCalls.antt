-- ===== src/Network/Chart/CheckpointCalls.antt =====
-- Each method of checkpoints.service.ts keeps the map well formed.
use egypt_supply_chain_visib.Base.{
  ℕ, ltb, ◌⊎◌, ◌≡◌, ap, subst, refl, same_text, same_text_iff, Bool, true, false, Bool-cases, some,
  is_some, ok, arith, inl, inr, guard-eq-ok, bind-eq-ok, ok-injective, conflict, not_found,
  throw_if, throw_if-eq-ok, or_throw, or_throw-eq-ok,
}
use egypt_supply_chain_visib.Domain.{Checkpoint}
use egypt_supply_chain_visib.Shipments.Update.{value, patch_required}
use egypt_supply_chain_visib.Network.{
  NetworkAction, checkpoint_create, checkpoint_update, checkpoint_remove, checkpoint_activate,
  checkpoint_deactivate, Atlas, Network, checkpoint_at, write_checkpoint, checkpoint_by_code,
}
use egypt_supply_chain_visib.Network.Checkpoints.{
  CreateCheckpointDto, UpdateCheckpointDto, new_checkpoint, patch_checkpoint, create_checkpoint,
  checkpoint_code_taken, update_checkpoint, remove_checkpoint, activate_checkpoint,
  deactivate_checkpoint, set_checkpoint_active, serves,
}
use egypt_supply_chain_visib.Network.Chart.{
  IsCharted, free_checkpoint-IsCharted, same_checkpoint-IsCharted,
}
use egypt_supply_chain_visib.Network.Chart.Patched.{absent, patch_required-eq-ok}

patch_checkpoint-code :
    (dto : UpdateCheckpointDto) (checkpoint updated : Checkpoint)
    → patch_checkpoint dto checkpoint ≡ ok updated
    → (updated.checkpoint_code ≡ checkpoint.checkpoint_code)
      ⊎ (dto.code ≡ value updated.checkpoint_code)
unfolding patch_checkpoint
patch_checkpoint-code dto checkpoint updated h =
    let (name, named, h1) = bind-eq-ok (patch_required dto.name checkpoint.checkpoint_name) _ h in
    let (code, coded, h2) = bind-eq-ok (patch_required dto.code checkpoint.checkpoint_code) _ h1 in
    let (type, typed, h3) = bind-eq-ok (patch_required dto.type checkpoint.checkpoint_type) _ h2 in
    let (city, placed, h4) = bind-eq-ok (patch_required dto.city checkpoint.checkpoint_city) _ h3 in
    let (latitude, north, h5) =
      bind-eq-ok (patch_required dto.latitude checkpoint.checkpoint_latitude) _ h4 in
    let (longitude, east, h6) =
      bind-eq-ok (patch_required dto.longitude checkpoint.checkpoint_longitude) _ h5 in
    subst
      (λ (x : Checkpoint).
        (x.checkpoint_code ≡ checkpoint.checkpoint_code) ⊎ (dto.code ≡ value x.checkpoint_code))
      (ok-injective h6) (patch_required-eq-ok dto.code checkpoint.checkpoint_code code coded)

module _ (a : Atlas) (n : Network a) (charted : IsCharted a n) where
  pub create_checkpoint-IsCharted :
      (new_id : ℕ) (dto : CreateCheckpointDto) (after : Network a) (checkpoint : Checkpoint)
      → create_checkpoint a n new_id dto ≡ ok (after, checkpoint)
      → IsCharted a after
  unfolding create_checkpoint new_checkpoint
  create_checkpoint-IsCharted new_id dto after checkpoint h =
      let (free, e) =
        guard-eq-ok (throw_if (is_some (checkpoint_by_code a n dto.code)) conflict) _ h in
      subst (IsCharted a) (ap (λ p. p.0) (ok-injective e)) (
        free_checkpoint-IsCharted a n charted checkpoint_create new_id (new_checkpoint dto)
          (absent (checkpoint_by_code a n dto.code) (ground arith)))

  patched_checkpoint-IsCharted :
      (id : ℕ) (dto : UpdateCheckpointDto) (checkpoint updated : Checkpoint)
      → checkpoint_at a n id ≡ some checkpoint
      → checkpoint_code_taken a n dto.code checkpoint ≡ false
      → (updated.checkpoint_code ≡ checkpoint.checkpoint_code)
        ⊎ (dto.code ≡ value updated.checkpoint_code)
      → IsCharted a (write_checkpoint a n checkpoint_update id updated)
  unfolding checkpoint_code_taken
  patched_checkpoint-IsCharted id dto checkpoint updated there free (inl same) =
      same_checkpoint-IsCharted a n charted checkpoint_update id checkpoint updated there same
  patched_checkpoint-IsCharted id dto checkpoint updated there free (inr given) =
      elim (Bool-cases (same_text updated.checkpoint_code checkpoint.checkpoint_code)) [
        | inl same ↦
            same_checkpoint-IsCharted a n charted checkpoint_update id checkpoint updated there
              ((same_text_iff updated.checkpoint_code checkpoint.checkpoint_code).0 same)
        | inr other ↦
            free_checkpoint-IsCharted a n charted checkpoint_update id updated
              (absent (checkpoint_by_code a n updated.checkpoint_code) (ground arith))
      ]

  pub update_checkpoint-IsCharted :
      (id : ℕ) (dto : UpdateCheckpointDto) (after : Network a) (updated : Checkpoint)
      → update_checkpoint a n id dto ≡ ok (after, updated)
      → IsCharted a after
  unfolding update_checkpoint
  update_checkpoint-IsCharted id dto after updated h =
      let (checkpoint, got, h1) = bind-eq-ok (or_throw (checkpoint_at a n id) not_found) _ h in
      let (free, h2) =
        guard-eq-ok (throw_if (checkpoint_code_taken a n dto.code checkpoint) conflict) _ h1 in
      let (new, patched, h3) = bind-eq-ok (patch_checkpoint dto checkpoint) _ h2 in
      subst (IsCharted a) (ap (λ p. p.0) (ok-injective h3)) (
        patched_checkpoint-IsCharted id dto checkpoint new
          (or_throw-eq-ok (checkpoint_at a n id) not_found got)
          (throw_if-eq-ok (checkpoint_code_taken a n dto.code checkpoint) conflict free)
          (patch_checkpoint-code dto checkpoint new patched))

  flag_checkpoint-IsCharted :
      (action : NetworkAction) (active : Bool) (id : ℕ) (checkpoint : Checkpoint)
      → or_throw (checkpoint_at a n id) not_found ≡ ok checkpoint
      → IsCharted a (set_checkpoint_active a n action active id checkpoint).0
  flag_checkpoint-IsCharted action active id checkpoint got =
      same_checkpoint-IsCharted a n charted action id checkpoint
        (record checkpoint { checkpoint_is_active = active })
        (or_throw-eq-ok (checkpoint_at a n id) not_found got) refl

  pub remove_checkpoint-IsCharted :
      (id : ℕ) (after : Network a) → remove_checkpoint a n id ≡ ok after → IsCharted a after
  unfolding remove_checkpoint
  remove_checkpoint-IsCharted id after h =
      let (checkpoint, got, e) = bind-eq-ok (or_throw (checkpoint_at a n id) not_found) _ h in
      subst (IsCharted a) (ok-injective e)
        (flag_checkpoint-IsCharted checkpoint_remove false id checkpoint got)

  pub activate_checkpoint-IsCharted :
      (id : ℕ) (after : Network a) (updated : Checkpoint)
      → activate_checkpoint a n id ≡ ok (after, updated)
      → IsCharted a after
  unfolding activate_checkpoint
  activate_checkpoint-IsCharted id after updated h =
      let (checkpoint, got, e) = bind-eq-ok (or_throw (checkpoint_at a n id) not_found) _ h in
      subst (IsCharted a) (ap (λ p. p.0) (ok-injective e))
        (flag_checkpoint-IsCharted checkpoint_activate true id checkpoint got)

  pub deactivate_checkpoint-IsCharted :
      (id : ℕ) (after : Network a) (updated : Checkpoint)
      → deactivate_checkpoint a n id ≡ ok (after, updated)
      → IsCharted a after
  unfolding deactivate_checkpoint
  deactivate_checkpoint-IsCharted id after updated h =
      let (checkpoint, got, h1) = bind-eq-ok (or_throw (checkpoint_at a n id) not_found) _ h in
      let (unused, e) =
        guard-eq-ok (throw_if (ltb 0 (a.stops_table.count n.stops (serves a n id))) conflict) _
          h1 in
      subst (IsCharted a) (ap (λ p. p.0) (ok-injective e))
        (flag_checkpoint-IsCharted checkpoint_deactivate false id checkpoint got)
