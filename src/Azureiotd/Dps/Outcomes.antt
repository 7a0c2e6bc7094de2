-- ===== src/Azureiotd/Dps/Outcomes.antt =====
-- How the making of a certificate ends: which statuses it needs, and where it stops.
use python2c.Base.{
  ap, ◌≡◌, ◌≢◌, ◌↔◌, ◌⊎◌, refl, sym, ◌∙◌, Bool, true, false, List, [], ◌∷◌, ◌++◌, append_assoc,
  some, Bytes, codes, if◌then◌else◌, ◌==ℤ◌, ==ℤ_iff, ℤ, pos, negsuc, Bool-cases, inl, inr, arith,
}
use python2c.Azureiotd.Dps.{
  Host, CertManager, Made, genrsa_cmd, req_cmd, ca_cmd, verify_cmd, chain_cmd, settled_cmds,
  prepare_cmds, dps_get_serial_number, dps_check_certificates_exist, run_all, conclude, steps,
  manager_of, dps_generate_certificates,
}

abbrev pub openssl_cmds : Bytes → List Bytes
openssl_cmds n = genrsa_cmd n ∷ req_cmd n ∷ ca_cmd n ∷ verify_cmd n ∷ []

module _ (host : Host) where
  -- Each of the commands, run in turn from a system, returns 0.
  abbrev pub AllZero : List Bytes → host.State → Type 0
  AllZero [] s = Unit
  AllZero (c ∷ cs) s = ((host.system c s).0 ≡ pos 0) × AllZero cs (host.system c s).1

  is_zero_no : (r : ℤ) → r ≢ pos 0 → (r ==ℤ pos 0) ≡ false
  is_zero_no r h = elim (Bool-cases (r ==ℤ pos 0)) [
    | inl same ↦ absurd (h ((==ℤ_iff r (pos 0)).0 same))
    | inr other ↦ other
  ]

  -- The commands once the openssl ones have succeeded.
  abbrev finish_cmds : Bytes → List Bytes
  finish_cmds n = chain_cmd n ∷ (settled_cmds ++ (codes "sync" ∷ []))

  steps-AllZero :
      (mgr : CertManager) (done cs : List Bytes) (s : host.State)
      → AllZero (cs ++ (verify_cmd mgr.serial_no ∷ [])) s
      → ((steps host mgr done cs s).code ≡ pos 0)
        × ((steps host mgr done cs s).commands
            ≡ done ++ (cs ++ (verify_cmd mgr.serial_no ∷ finish_cmds mgr.serial_no)))
  unfolding steps conclude
  steps-AllZero mgr done [] s z = rw z.0 (refl, append_assoc done _ _)
  steps-AllZero mgr done (c ∷ cs) s z =
      let (code, cmds) = steps-AllZero mgr (done ++ (c ∷ [])) cs (host.system c s).1 z.1 in
      rw z.0 (code, cmds ∙ append_assoc done (c ∷ []) _)

  status : (r : ℤ) → (r ≡ pos 0) ⊎ ((r ==ℤ pos 0) ≡ false)
  status r = ground (arith, ==ℤ_iff r (pos 0), Bool-cases (r ==ℤ pos 0))

  chosen :
      (b : Bool) (x y : Made host.State)
      → (if b then x else y).code ≡ pos 0
      → y.code ≡ negsuc 0
      → (b ≡ true) × (x.code ≡ pos 0)
  chosen true x y h k = (refl, h)
  chosen false x y h k = absurd (negsuc-pos (sym k ∙ h))
    where
      negsuc-pos : ¬ (negsuc 0 ≡ pos 0)
      negsuc-pos e = ground (arith, e)

  chosen_code : (b : Bool) → (if b then pos 0 else negsuc 0) ≡ pos 0 → b ≡ true
  chosen_code true h = refl
  chosen_code false h = ground (arith, h)

  steps-zero :
      (mgr : CertManager) (done cs : List Bytes) (s : host.State)
      → (steps host mgr done cs s).code ≡ pos 0
      → AllZero (cs ++ (verify_cmd mgr.serial_no ∷ [])) s
  unfolding steps conclude
  steps-zero mgr done [] s h = ((==ℤ_iff _ _).0 (chosen_code _ h), tt)
  steps-zero mgr done (c ∷ cs) s h =
      let (good, rest) = chosen _ _ _ h refl in
      ((==ℤ_iff _ _).0 good, steps-zero mgr (done ++ (c ∷ [])) cs _ rest)

  steps-failure :
      (mgr : CertManager) (done pre post : List Bytes) (c : Bytes) (s : host.State)
      → AllZero pre s
      → (host.system c (run_all host pre s)).0 ≢ pos 0
      → ((steps host mgr done (pre ++ (c ∷ post)) s).code ≡ negsuc 0)
        × ((steps host mgr done (pre ++ (c ∷ post)) s).commands ≡ done ++ (pre ++ (c ∷ [])))
  unfolding steps run_all
  steps-failure mgr done [] post c s z h = rw (is_zero_no _ h) (refl, refl)
  steps-failure mgr done (p ∷ pre) post c s z h =
      let (code, cmds) =
        steps-failure mgr (done ++ (p ∷ [])) pre post c (host.system p s).1 z.1 h in
      rw z.0 (code, cmds ∙ append_assoc done (p ∷ []) _)

  generate-steps :
      (n : Bytes) (s : host.State)
      → dps_get_serial_number host s ≡ some n
      → dps_check_certificates_exist host (some n) s ≡ false
      → dps_generate_certificates host s
        ≡ steps host
            (manager_of host n)
            prepare_cmds
            (genrsa_cmd n ∷ req_cmd n ∷ ca_cmd n ∷ [])
            (run_all host prepare_cmds s)
  unfolding dps_generate_certificates
  generate-steps n s h e = rw (h, dps_generate_certificates, e) refl

  -- When there is a serial number and its certificate is missing, the call returns 0 just when the
  -- four openssl commands, run in their order after the preparation, each return 0.
  pub generate-success_iff :
      (n : Bytes) (s : host.State)
      → dps_get_serial_number host s ≡ some n
      → dps_check_certificates_exist host (some n) s ≡ false
      → ((dps_generate_certificates host s).code ≡ pos 0)
        ↔ AllZero (openssl_cmds n) (run_all host prepare_cmds s)
  generate-success_iff n s h e =
      let mgr : CertManager = manager_of host n in
      let cs : List Bytes = genrsa_cmd n ∷ req_cmd n ∷ ca_cmd n ∷ [] in
      let s' : host.State = run_all host prepare_cmds s in
      rw (generate-steps n s h e) (
        (λ z. steps-zero mgr prepare_cmds cs s' z),
        (λ z. (steps-AllZero mgr prepare_cmds cs s' z).0),
      )

  -- When the call returned 0, with a serial number there and its certificate missing before, the
  -- commands run are the preparation, the four openssl ones, the one that writes the full chain,
  -- the two that settle the state, and `sync`, in this order.
  pub generate-commands :
      (n : Bytes) (s : host.State)
      → dps_get_serial_number host s ≡ some n
      → dps_check_certificates_exist host (some n) s ≡ false
      → (dps_generate_certificates host s).code ≡ pos 0
      → (dps_generate_certificates host s).commands
        ≡ prepare_cmds ++ (openssl_cmds n ++ (chain_cmd n ∷ (settled_cmds ++ (codes "sync" ∷ []))))
  generate-commands n s h e z =
      let mgr : CertManager = manager_of host n in
      let cs : List Bytes = genrsa_cmd n ∷ req_cmd n ∷ ca_cmd n ∷ [] in
      let s' : host.State = run_all host prepare_cmds s in
      ap (λ m. m.commands) (generate-steps n s h e)
      ∙ (steps-AllZero mgr prepare_cmds cs s' (
          steps-zero mgr prepare_cmds cs s'
            (ap (λ m. m.code) (sym (generate-steps n s h e)) ∙ z))).1

  -- When one of the three openssl commands that make the certificate is the first to fail, with a
  -- serial number there and its certificate missing, the call returns -1 and runs nothing after it:
  -- neither the rest, nor the check, nor the reset of the device.
  pub generate-first_failure :
      (n : Bytes) (s : host.State) (pre post : List Bytes) (c : Bytes)
      → dps_get_serial_number host s ≡ some n
      → dps_check_certificates_exist host (some n) s ≡ false
      → pre ++ (c ∷ post) ≡ genrsa_cmd n ∷ req_cmd n ∷ ca_cmd n ∷ []
      → AllZero pre (run_all host prepare_cmds s)
      → (host.system c (run_all host pre (run_all host prepare_cmds s))).0 ≢ pos 0
      → ((dps_generate_certificates host s).code ≡ negsuc 0)
        × ((dps_generate_certificates host s).commands ≡ prepare_cmds ++ (pre ++ (c ∷ [])))
  generate-first_failure n s pre post c h e p z f =
      rw (generate-steps n s h e, sym p)
        (steps-failure (manager_of host n) prepare_cmds pre post c (run_all host prepare_cmds s) z
          f)
