-- ===== src/Entry/Tests.antt =====
-- Runs of the program.
use mundosvirtuales_terremot.Base.{◌≡◌, refl, [], ◌∷◌}
use mundosvirtuales_terremot.Entry.{new_program, main, waiting, started}

-- The end of the input.
main_waits :
    main new_program (10 ∷ 255 ∷ 255 ∷ [])
    ≡ waiting (record { alarm = started; request = started; sensors = started })
unfolding main
main_waits = refl
