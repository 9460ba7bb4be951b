-- ===== src/SimConfig/RoundTrip.antt =====
-- A sim's settings read and written as a Dictionary.
use goldnet_godot.Common.{
  ◌||◌, Bool, true, false, ◌≡◌, refl, ap, sym, ◌∙◌, String, some, List, [], ◌∷◌, All, get, put,
  get-put, Bool-cases, inl, inr, string_eq, if◌then◌else◌, arith,
}
use goldnet_godot.SimConfig.{
  Settings, sim_setters, sim_getters, is_sim_key, Dictionary, has_unknown_key, value_or_default,
  apply_each, apply_sim_config, read_each, read_sim_config, set_recv_sim_config,
}

-- Whether some entry has this key, and whether some sets or reads this.
abbrev has_key : List (String × String) → String → Bool
has_key [] k = false
has_key ((key, member) ∷ rest) k = string_eq.beq key k || has_key rest k

abbrev has_member : List (String × String) → String → Bool
has_member [] m = false
has_member ((key, member) ∷ rest) m = string_eq.beq member m || has_member rest m

-- No entry has the key, or sets or reads what another does.
abbrev Apart : List (String × String) → Type 0
Apart [] = Unit
Apart ((key, member) ∷ rest) =
    (has_key rest key ≡ false) × (has_member rest member ≡ false) × Apart rest

module _ (c : Settings) where
  open c use {S, Value, default, setting, set}

  -- What none of the calls sets is as it was.
  apply_each_leaves :
      (s : S) (cfg : Dictionary c) (table : List (String × String)) (m : String)
      → has_member table m ≡ false
      → setting m (apply_each c s cfg table) ≡ setting m s
  unfolding apply_each
  apply_each_leaves s cfg [] m h = refl
  apply_each_leaves s cfg ((key, member) ∷ rest) m h =
      let v = value_or_default c cfg key member in
      apply_each_leaves (set member v s) cfg rest m (ground (arith, h))
      ∙ c.setting-set_other m member v s (ground (arith, h))

  -- What a call of the table sets reads as what it set.
  abbrev Applied : S → Dictionary c → S → String × String → Type 0
  Applied s cfg out (key, member) =
      setting member out ≡ setting member (set member (value_or_default c cfg key member) s)

  Applied-apply_each :
      (s t : S) (cfg : Dictionary c) (table : List (String × String))
      → Apart table
      → All (Applied t cfg (apply_each c s cfg table)) table
  unfolding apply_each
  Applied-apply_each s t cfg [] h = tt
  Applied-apply_each s t cfg ((key, member) ∷ rest) (keys, members, h) =
      let v = value_or_default c cfg key member in
      (
        apply_each_leaves (set member v s) cfg rest member members ∙ c.setting-set member v s t,
        Applied-apply_each (set member v s) t cfg rest h,
      )

  get-read_each_apart :
      (s : S) (d : Dictionary c) (table : List (String × String)) (k : String)
      → has_key table k ≡ false
      → get (read_each c s d table) k ≡ get d k
  unfolding read_each
  get-read_each_apart s d [] k h = refl
  get-read_each_apart s d ((key, member) ∷ rest) k h =
      get-read_each_apart s (put d key (setting member s)) rest k (ground (arith, h))
      ∙ ground (arith, h, get-put d key k (setting member s))

  -- What is read is found under its key.
  get-read_each :
      (s : S) (d : Dictionary c) (table : List (String × String))
      → Apart table
      → All (λ (e : String × String). get (read_each c s d table) e.0 ≡ some (setting e.1 s)) table
  unfolding read_each
  get-read_each s d [] h = tt
  get-read_each s d ((key, member) ∷ rest) (keys, members, h) = (
    get-read_each_apart s (put d key (setting member s)) rest key keys
        ∙ ground (arith, get-put d key key (setting member s), string_eq.beq_iff key key),
    get-read_each s (put d key (setting member s)) rest h,
  )

  unknown-put :
      (d : Dictionary c) (k : String) (v : Value)
      → is_sim_key k ≡ true
      → has_unknown_key c (put d k v) ≡ has_unknown_key c d
  unfolding has_unknown_key put
  unknown-put [] k v h = ground (arith, h)
  unknown-put ((j, w) ∷ d) k v h = ground (arith, h, unknown-put d k v h, string_eq.beq_iff j k)

  unknown-read_each :
      (s : S) (d : Dictionary c) (table : List (String × String))
      → All (λ (e : String × String). is_sim_key e.0 ≡ true) table
      → has_unknown_key c (read_each c s d table) ≡ has_unknown_key c d
  unfolding read_each
  unknown-read_each s d [] h = refl
  unknown-read_each s d ((key, member) ∷ rest) (hk, hs) =
      unknown-read_each s (put d key (setting member s)) rest hs
      ∙ unknown-put d key (setting member s) hk

  read_each_alike :
      (a b : S) (d : Dictionary c) (table : List (String × String))
      → All (λ (e : String × String). setting e.1 a ≡ setting e.1 b) table
      → read_each c a d table ≡ read_each c b d table
  unfolding read_each
  read_each_alike a b d [] h = refl
  read_each_alike a b d ((key, member) ∷ rest) (hk, hs) =
      rw hk (read_each_alike a b (put d key (setting member b)) rest hs)

  -- Two sims to which the same was applied read the same where it was.
  alike_each :
      (a b s : S) (cfg : Dictionary c) (table : List (String × String))
      → All (Applied s cfg a) table
      → All (Applied s cfg b) table
      → All (λ (e : String × String). setting e.1 a ≡ setting e.1 b) table
  alike_each a b s cfg [] h k = tt
  alike_each a b s cfg ((key, member) ∷ rest) (h, hs) (k, ks) =
      (h ∙ sym k, alike_each a b s cfg rest hs ks)

  -- Settings that were read and applied under the same keys read as they did.
  written_each :
      (out s t : S) (cfg : Dictionary c) (table : List (String × String))
      → All (Applied s cfg out) table
      → All (λ (e : String × String). get cfg e.0 ≡ some (setting e.1 t)) table
      → All (λ (e : String × String). setting e.1 out ≡ setting e.1 t) table
  unfolding value_or_default
  written_each out s t cfg [] h k = tt
  written_each out s t cfg ((key, member) ∷ rest) (h, hs) (k, ks) =
      let value : value_or_default c cfg key member ≡ setting member t = ground (arith, k) in
      (
        h ∙ ap (λ v. setting member (set member v s)) value ∙ c.set-setting member t s,
        written_each out s t cfg rest hs ks,
      )

  apart : Apart sim_setters
  apart = (
    refl,
    refl,
    (
      refl,
      refl,
      (
        refl,
        refl,
        (
          refl,
          refl,
          (refl, refl, (refl, refl, (refl, refl, (refl, refl, (refl, refl, (refl, refl, tt)))))),
        ),
      ),
    ),
  )

  known_keys : All (λ (e : String × String). is_sim_key e.0 ≡ true) sim_getters
  unfolding is_sim_key
  known_keys = (refl, (refl, (refl, (refl, (refl, (refl, (refl, (refl, (refl, (refl, tt))))))))))

  -- Where nothing is unknown, every setting reads as the value written, whatever it was before.
  applied_alike :
      (a b : S) (cfg : Dictionary c)
      → read_each c (apply_each c a cfg sim_setters) [] sim_getters
        ≡ read_each c (apply_each c b cfg sim_setters) [] sim_getters
  applied_alike a b cfg =
      let a1 = apply_each c a cfg sim_setters in
      let b1 = apply_each c b cfg sim_setters in
      read_each_alike a1 b1 [] sim_getters (
        alike_each a1 b1 a cfg sim_setters (Applied-apply_each a a cfg sim_setters apart)
          (Applied-apply_each b a cfg sim_setters apart))

  -- What was read of one sim is taken by any other, which then reads the same.
  pub read-apply_sim_config :
      (s t : S)
      → let (s1, taken) = apply_sim_config c s (read_sim_config c t) in
        (taken ≡ true) × (read_sim_config c s1 ≡ read_sim_config c t)
  unfolding apply_sim_config read_sim_config
  read-apply_sim_config s t =
      let cfg = read_each c t [] sim_getters in
      let known : has_unknown_key c cfg ≡ false =
        unknown-read_each t [] sim_getters known_keys ∙ (unfold has_unknown_key in refl) in
      let s1 = apply_each c s cfg sim_setters in
      rw known (
        refl,
        read_each_alike s1 t [] sim_getters (
            written_each s1 s t cfg sim_setters (Applied-apply_each s s cfg sim_setters apart)
              (get-read_each t [] sim_getters apart)),
      )

  -- A write of recv_sim_config goes to the settings kept and to the receive sim, whatever they were: both
  -- read the same then; or, where a key is unknown, both are as they were.
  set_recv_sim_config_alike :
      (s recv : S) (cfg : Dictionary c)
      → let (s1, recv1) = set_recv_sim_config c s (some recv) cfg in
        if has_unknown_key c cfg
        then (s1 ≡ s) × (recv1 ≡ some recv)
        else (r : S) × (recv1 ≡ some r) × (read_sim_config c s1 ≡ read_sim_config c r)
  unfolding set_recv_sim_config apply_sim_config read_sim_config
  set_recv_sim_config_alike s recv cfg = elim (Bool-cases (has_unknown_key c cfg)) [
    | inl unknown ↦ rw unknown (refl, refl)
    | inr known ↦ rw known (apply_each c recv cfg sim_setters, refl, applied_alike s recv cfg)
  ]
