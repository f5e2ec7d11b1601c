-- ===== src/Network/Chart/Patched.antt =====
-- What the guards of an edit have established.
use egypt_supply_chain_visib.Base.{
  ◌⊎◌, ◌≡◌, sym, ap, refl, false, Option, none, some, is_some, ok, arith, inl, inr, ok-injective,
}
use egypt_supply_chain_visib.Shipments.Update.{Patch, undefined, null, value, patch_required}

pub absent : {A : Type 0} (o : Option A) → is_some o ≡ false → o ≡ none
absent none h = refl
absent (some x) h = absurd (ground arith)

pub patch_required-eq-ok :
    {A : Type 0} (p : Patch A) (old new : A)
    → patch_required p old ≡ ok new
    → (new ≡ old) ⊎ (p ≡ value new)
patch_required-eq-ok undefined old new h = inl (sym (ok-injective h))
patch_required-eq-ok null old new h = absurd (ground arith)
patch_required-eq-ok (value x) old new h = inr (ap value (ok-injective h))
