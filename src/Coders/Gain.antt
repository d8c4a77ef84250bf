-- ===== src/Coders/Gain.antt =====
-- src/codecs/coders.cc: which gain `set_gain` applies.
use mp3fs.Prelude.{◌≡◌, ◌≢◌, true, false, none, some, arith, ℕ, if◌then◌else◌}
use mp3fs.Coders.{Doubles, set_gain, invalid_db, default_gain}

module _ (d : Doubles) where
  open d use {Double, eq, add, sub}

  -- Where the comparison knows the value that stands for no gain: `gainmode` 1 treats an album gain
  -- as `gainmode` 2 treats a track gain, and without one it is `gainmode` 2. That takes no account
  -- of the album gain, and adds a track gain to the difference of the references.
  pub set_gain_modes :
      (reference gainref album track other : Double)
      → eq (invalid_db d) (invalid_db d) ≡ true
      → eq album (invalid_db d) ≡ false
      → (set_gain d 1 reference gainref album track ≡ set_gain d 2 reference gainref other album)
        × (set_gain d 1 reference gainref (invalid_db d) track
            ≡ set_gain d 2 reference gainref other track)
        × (set_gain d 2 reference gainref other track ≡ (
            if eq track (invalid_db d)
            then none
            else some (
                add
                  (sub reference (if eq gainref (invalid_db d) then default_gain d else gainref))
                  track)))
  unfolding set_gain
  set_gain_modes reference gainref album track other same has =
      (ground arith, ground arith, ground arith)

  -- Any other mode sets no gain.
  pub set_gain_ignore :
      (gainmode : ℕ) (reference gainref album track : Double)
      → eq (invalid_db d) (invalid_db d) ≡ true
      → gainmode ≢ 1
      → gainmode ≢ 2
      → set_gain d gainmode reference gainref album track ≡ none
  unfolding set_gain
  set_gain_ignore gainmode reference gainref album track same one two = ground arith
