-- ===== src/Experiments/Settlement/Tests.antt =====
-- Eras settled by their volunteers.
use scalar_commons_v.Base.{
  ◌≡◌, refl, none, decimal_from, String, [], ◌∷◌, All, false, ◌||◌, Bool, arith, string_keys, ◌==◌,
}
use scalar_commons_v.Base.Results.{ok}
use scalar_commons_v.Experiments.Prng.{derive_seed, next_u64}
use scalar_commons_v.Experiments.Recording.{new_sdk, is_privileged_signer}
use scalar_commons_v.Experiments.Settlement.{
  Settlement, new_settlement, backoff_of, attempt_all, winner, flush,
}
use scalar_commons_v.Experiments.Settlement.Least.{is_in}
use scalar_commons_v.Experiments.Settlement.Attempts.{Settled, attempts-Settled, winner_any_order}

abbrev coordinator : Settlement
coordinator = new_settlement 42 3

ant_draw : backoff_of 42 3 1 "ant" ≡ 3
unfolding backoff_of derive_seed next_u64 decimal_from
ant_draw = refl

bee_draw : backoff_of 42 3 1 "bee" ≡ 1
unfolding backoff_of derive_seed next_u64 decimal_from
bee_draw = refl

nobody_settles : flush 1 coordinator new_sdk ≡ ok (none, (coordinator, new_sdk))
unfolding flush
nobody_settles = refl

none_privileged : All (λ b. is_privileged_signer b ≡ false) ("bee" ∷ "ant" ∷ "bee" ∷ [])
unfolding is_privileged_signer
none_privileged = (refl, (refl, (refl, tt)))

attempts-Settled_example :
    Settled 1
      ("bee" ∷ "ant" ∷ "bee" ∷ [])
      coordinator
      (attempt_all 1 ("bee" ∷ "ant" ∷ "bee" ∷ []) coordinator)
      new_sdk
attempts-Settled_example =
    attempts-Settled 1 "bee" ("ant" ∷ "bee" ∷ []) coordinator new_sdk refl none_privileged

same_volunteers : (c : String) → is_in c ("bee" ∷ "ant" ∷ "bee" ∷ []) ≡ is_in c ("ant" ∷ "bee" ∷ [])
same_volunteers c = doubled ("bee" == c) ("ant" == c)
  where
    doubled : (x y : Bool) → (x || (y || (x || false))) ≡ (y || (x || false))
    doubled x y = ground arith

winner_any_order_example :
    winner none (attempt_all 1 ("bee" ∷ "ant" ∷ "bee" ∷ []) coordinator).current
    ≡ winner none (attempt_all 1 ("ant" ∷ "bee" ∷ []) coordinator).current
winner_any_order_example =
    winner_any_order 1 "bee" "ant" ("ant" ∷ "bee" ∷ []) ("bee" ∷ []) coordinator refl
      same_volunteers
