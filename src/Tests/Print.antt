-- ===== src/Tests/Print.antt =====
-- Formatting at concrete values.
use ucas_operating_system_la.Base.{ℕ, false, ◌≡◌, ◌<◌, ◌-◌, ◌^◌, ◌⊎◌, [], ◌∷◌, arith, none, some}
use ucas_operating_system_la.Strings.{Mem, strlen, atoi}
use ucas_operating_system_la.Print.{mini_itoa}
use ucas_operating_system_la.Print.RoundTrip.{atoi-mini_itoa}
use ucas_operating_system_la.Print.Format.{mini_vsnprintf}
use ucas_operating_system_la.Print.Format.Inside.{Unchanged, mini_vsnprintf-Inside}

abbrev empty_mem : Mem
empty_mem = λ a. 0

atoi-mini_itoa_example : atoi (mini_itoa 30720 10 false false 64 0 empty_mem).1 64 ≡ some 30720
atoi-mini_itoa_example = atoi-mini_itoa 30720 64 empty_mem (omega arith)

-- "%d" with a negative number, in a buffer of 8 bytes.
mini_vsnprintf-Inside_example :
    ((ret : ℕ) × (m' : Mem) × (mini_vsnprintf 100 8 (37 ∷ 100 ∷ []) (λ k. 2 ^ 32 - 5) 200 empty_mem
        ≡ some (ret, m'))
      × (ret < 8)
      × Unchanged 100 8 200 empty_mem m')
    ⊎ ((k : ℕ) × (m' : Mem) × Unchanged 100 8 200 empty_mem m' × (strlen m' (2 ^ 32 - 5) ≡ none))
mini_vsnprintf-Inside_example =
    mini_vsnprintf-Inside 100 8 200 (37 ∷ 100 ∷ []) (λ k. 2 ^ 32 - 5) empty_mem (omega arith)
      (omega arith)
