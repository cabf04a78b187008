-- ===== src/Config/Watcher.antt =====
-- internal/config/watcher.go: the watch over the configuration file. A look at the file tells its
-- time, if there is a file, and what `Load` makes of it; the ticker only says when one is taken. Times
-- are nanoseconds since Go's zero time.
use aigateway.Prelude.{ℕ, String, Option, none, some, List, [], ◌∷◌, ltb, if◌then◌else◌}
use aigateway.Config.Types.{Config}

module _ (F : Type 0) where
  pub record Watcher : Type 0 where
    pub path : String
    pub cfg : Config F
    pub last_mod : ℕ

  -- One look: os.Stat, and Load if it is called.
  pub record Look : Type 0 where
    pub mod_time : Option ℕ
    pub loaded : Option (Config F)

abbrev or_zero : Option ℕ → ℕ
or_zero none = 0
or_zero (some t) = t

module _ {F : Type 0} where
  unfoldable pub new_watcher : String → Config F → Option ℕ → Watcher F
  new_watcher path cfg mod_time = record { path = path; cfg = cfg; last_mod = or_zero mod_time }

  -- The watcher after a look, and the configuration that `onChange` is called with.
  unfoldable pub check : Look F → Watcher F → Watcher F × Option (Config F)
  check look w = elim look.mod_time [
    | none ↦ (w, none)
    | some t ↦
        if ltb w.last_mod t
        then elim look.loaded [
          | none ↦ (w, none)
          | some cfg ↦ (record w { cfg = cfg; last_mod = t }, some cfg)
        ]
        else (w, none)
  ]

  -- The loop of `Start`: the looks at its ticks, and the changes that are told, in order.
  unfoldable pub run : List (Look F) → Watcher F → Watcher F × List (Config F)
  unfolding check
  run [] w = (w, [])
  run (look ∷ looks) w =
      let (w', told) = check look w in
      let (w'', later) = run looks w' in (w'', elim told [ none ↦ later | some cfg ↦ cfg ∷ later ])
