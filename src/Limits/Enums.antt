-- ===== src/Limits/Enums.antt =====
-- Members of the enums of app/schemas/limits.py that a test takes for the same are the same.
use amazee_ai.Limits.Model.{
  OwnerType, ResourceType, resource_code, same_owner, same_resource, user_key, service_key,
  team_owner, system, user, user_owner, vector_db, gpt_instance, budget, rpm, storage, document,
}
use amazee_ai.Common.{true, refl, arith, ◌≡◌, ◌==◌, ◌∙◌, ℕ, if◌then◌else◌, ap, sym}

resource_at : ℕ → ResourceType
resource_at n =
    if n == 0
    then user_key
    else (if n == 1
        then service_key
        else (if n == 2
            then user
            else (if n == 3
                then vector_db
                else (if n == 4
                    then gpt_instance
                    else (if n == 5
                        then budget
                        else (if n == 6 then rpm else (if n == 7 then storage else document)))))))

resource_at-resource_code : (r : ResourceType) → resource_at (resource_code r) ≡ r
unfolding resource_at
resource_at-resource_code user_key = refl
resource_at-resource_code service_key = refl
resource_at-resource_code user = refl
resource_at-resource_code vector_db = refl
resource_at-resource_code gpt_instance = refl
resource_at-resource_code budget = refl
resource_at-resource_code rpm = refl
resource_at-resource_code storage = refl
resource_at-resource_code document = refl

pub same_resource_sound : (a b : ResourceType) → same_resource a b ≡ true → a ≡ b
same_resource_sound a b h =
    let codes : resource_code a ≡ resource_code b = ground arith in
    sym (resource_at-resource_code a) ∙ ap resource_at codes ∙ resource_at-resource_code b

pub team_owner_sound : (o : OwnerType) → same_owner o team_owner ≡ true → o ≡ team_owner
team_owner_sound system h = absurd (ground arith)
team_owner_sound team_owner h = refl
team_owner_sound user_owner h = absurd (ground arith)
