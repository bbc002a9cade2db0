-- ===== src/Model/Keys.antt =====
-- The equality of keys.
use figmog.Prelude.{ℕ, zero, suc, ◌≡◌, ◌↔◌, refl, sym, ◌∙◌, true, arith}
use figmog.Prelude.Tests.{HasEquality, nat_eq}
use figmog.Prelude.Text.{Str, str_eq, str_beq_iff}
use figmog.Model.{RecId, variant, payload, id_beq}

abbrev of_variant : ℕ → Str → RecId
of_variant zero k = RecId.node k
of_variant (suc zero) k = RecId.component k
of_variant (suc (suc zero)) k = RecId.component_set k
of_variant (suc (suc (suc zero))) k = RecId.style k
of_variant (suc (suc (suc (suc zero)))) k = RecId.variable k
of_variant (suc (suc (suc (suc (suc zero))))) k = RecId.variable_collection k
of_variant (suc (suc (suc (suc (suc (suc zero)))))) k = RecId.meta
of_variant (suc (suc (suc (suc (suc (suc (suc zero))))))) k = RecId.proxy_cache k
of_variant (suc (suc (suc (suc (suc (suc (suc (suc zero)))))))) k = RecId.mirror_config
of_variant _ k = RecId.image_blob k

of_variant_lem : (a : RecId) → of_variant (variant a) (payload a) ≡ a
of_variant_lem (RecId.node _) = refl
of_variant_lem (RecId.component _) = refl
of_variant_lem (RecId.component_set _) = refl
of_variant_lem (RecId.style _) = refl
of_variant_lem (RecId.variable _) = refl
of_variant_lem (RecId.variable_collection _) = refl
of_variant_lem RecId.meta = refl
of_variant_lem (RecId.proxy_cache _) = refl
of_variant_lem RecId.mirror_config = refl
of_variant_lem (RecId.image_blob _) = refl

id_beq_sound : (a b : RecId) → id_beq a b ≡ true → a ≡ b
unfolding id_beq
id_beq_sound a b h =
    let v : variant a ≡ variant b = ground arith in
    let p : payload a ≡ payload b = ground (arith, str_beq_iff (payload a) (payload b)) in
    sym (of_variant_lem a) ∙ rw (v, p) (of_variant_lem b)

-- Two keys are equal as the program compares them exactly when they are equal.
pub id_beq_iff : (a b : RecId) → (id_beq a b ≡ true) ↔ (a ≡ b)
unfolding id_beq
id_beq_iff a b = (id_beq_sound a b, λ p. rw p (ground (arith, str_beq_iff (payload b) (payload b))))

instance abbrev pub id_eq : HasEquality RecId
id_eq = record { equal = id_beq; equal_iff = id_beq_iff }
