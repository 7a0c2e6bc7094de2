-- ===== src/Lcdclient/Ctl/Same.antt =====
-- The command line package/evi-lcdsvc/src/lcdctl.c against the library
-- package/evi-lcdclient/src/evi_lcd.c.
use python2c.Base.{
  ◌+◌, ℤ, ◌≤◌, ◌≡◌, refl, sym, ap, ◌↔◌, true, ◌∙◌, List, [], ◌∷◌, ◌++◌, append_assoc, append-nil,
  Bytes, codes, take, take-eq_of_le, length, length-append, arith, some, inl, inr, Bool-cases,
}
use python2c.Base.Scan.{print_hex2}
use python2c.Lcdclient
use python2c.Lcdclient.{Peer, Event, first_sock_path}
use python2c.Lcdclient.Link.{wire}
use python2c.Lcdclient.OnDisplay.{
  ClientCall, lcd_init, lcd_clear, lcd_home, lcd_instr, lcd_ddram, lcd_put,
}
use python2c.Lcdclient.Ctl
use python2c.Lcdclient.Ctl.{put_words}

-- Arguments with a space between them.
abbrev pub spaced : List Bytes → Bytes
spaced [] = []
spaced (a ∷ []) = a
spaced (a ∷ b ∷ rest) = a ++ (b' ' ∷ spaced (b ∷ rest))

put_words-spaced :
    (buf : Bytes) (words : List Bytes)
    → length buf + length (spaced words) ≤ 511
    → put_words buf words ≡ buf ++ spaced words
unfolding put_words
put_words-spaced buf [] h = sym (append-nil buf)
put_words-spaced buf (a ∷ []) h = take-eq_of_le 511 (buf ++ a) (omega (arith, length-append buf a))
put_words-spaced buf (a ∷ b ∷ rest) h =
    ap (λ t. put_words t (b ∷ rest)) first
    ∙ put_words-spaced ((buf ++ a) ++ codes " ") (b ∷ rest)
        (omega (arith, h, lengths, length-append a (b' ' ∷ spaced (b ∷ rest))))
    ∙ append_assoc (buf ++ a) (codes " ") (spaced (b ∷ rest))
    ∙ append_assoc buf a (b' ' ∷ spaced (b ∷ rest))
  where
    lengths : length ((buf ++ a) ++ codes " ") ≡ length buf + length a + 1
    lengths = omega (arith, length-append (buf ++ a) (codes " "), length-append buf a)

    first : take 511 (take 511 (buf ++ a) ++ codes " ") ≡ (buf ++ a) ++ codes " "
    first =
        ap (λ t. take 511 (t ++ codes " "))
          (take-eq_of_le 511 (buf ++ a)
            (omega (arith, h, length-append buf a, length-append a (b' ' ∷ spaced (b ∷ rest)))))
        ∙ take-eq_of_le 511 ((buf ++ a) ++ codes " ")
            (omega (arith, h, lengths, length-append a (b' ' ∷ spaced (b ∷ rest))))

-- The arguments that stand for a call of the library.
abbrev pub Stands : ClientCall → List Bytes → Type 0
Stands lcd_init argv = argv ≡ codes "init" ∷ []
Stands lcd_clear argv = argv ≡ codes "clear" ∷ []
Stands lcd_home argv = argv ≡ codes "home" ∷ []
Stands (lcd_instr v) argv = argv ≡ codes "instr" ∷ (codes "0x" ++ print_hex2 v) ∷ []
Stands (lcd_ddram a) argv = argv ≡ codes "ddram" ∷ (codes "0x" ++ print_hex2 a) ∷ []
Stands (lcd_put s) argv =
    (arg : Bytes) × (rest : List Bytes) × (argv ≡ codes "put" ∷ arg ∷ rest)
    × (spaced (arg ∷ rest) ≡ s)
    × (length s ≤ 507)

module _ (peer : Peer) where
  abbrev pub library : ClientCall → List Event × ℤ
  library lcd_init = Lcdclient.evi_lcd_init peer first_sock_path
  library lcd_clear = Lcdclient.evi_lcd_clear peer first_sock_path
  library lcd_home = Lcdclient.evi_lcd_home peer first_sock_path
  library (lcd_instr v) = Lcdclient.evi_lcd_instr peer first_sock_path v
  library (lcd_ddram a) = Lcdclient.evi_lcd_ddram peer first_sock_path a
  library (lcd_put s) = Lcdclient.evi_lcd_put peer first_sock_path (some s)

  send_cmd-wire :
      (cmd : Bytes)
      → wire (Ctl.send_cmd peer cmd).events ≡ wire (Lcdclient.send_cmd peer first_sock_path cmd).0
  unfolding Ctl.send_cmd Lcdclient.send_cmd
  send_cmd-wire cmd = elim (Bool-cases peer.socket_ok) [
    | inr no_socket ↦ rw no_socket refl
    | inl socket ↦ elim (Bool-cases (peer.connect_ok first_sock_path)) [
      | inr refused ↦ rw (socket, refused) refl
      | inl accepted ↦ rw (socket, accepted) refl
    ]
  ]

  -- `socket` and `connect` succeed.
  abbrev pub Reaches : Type 0
  Reaches = (peer.socket_ok ≡ true) × (peer.connect_ok first_sock_path ≡ true)

  send_cmd-agrees :
      (cmd : Bytes)
      → (wire (Ctl.send_cmd peer cmd).events ≡ wire (Lcdclient.send_cmd peer first_sock_path cmd).0)
        × (((Ctl.send_cmd peer cmd).status ≡ 0) ↔ Reaches)
  unfolding Ctl.send_cmd
  send_cmd-agrees cmd = (send_cmd-wire cmd, ground arith)

  -- A command line sends the bytes that its call of the library sends, whatever the system answers,
  -- and exits with 0 just when socket and connect succeed, whatever the daemon replies. For `put`,
  -- the arguments with a space between them are the text, of at most 507 bytes.
  pub ctl_same_bytes :
      (c : ClientCall) (argv : List Bytes)
      → Stands c argv
      → (wire (Ctl.main peer argv).events ≡ wire (library c).0)
        × (((Ctl.main peer argv).status ≡ 0) ↔ Reaches)
  unfolding Ctl.main Lcdclient.evi_lcd_init Lcdclient.evi_lcd_clear Lcdclient.evi_lcd_home
      Lcdclient.evi_lcd_instr Lcdclient.evi_lcd_ddram Lcdclient.evi_lcd_put
  ctl_same_bytes lcd_init argv h = rw h (send_cmd-agrees (codes "INIT"))
  ctl_same_bytes lcd_clear argv h = rw h (send_cmd-agrees (codes "CLEAR"))
  ctl_same_bytes lcd_home argv h = rw h (send_cmd-agrees (codes "HOME"))
  ctl_same_bytes (lcd_instr v) argv h = rw h (send_cmd-agrees (codes "INSTR 0x" ++ print_hex2 v))
  ctl_same_bytes (lcd_ddram a) argv h = rw h (send_cmd-agrees (codes "DDRAM 0x" ++ print_hex2 a))
  ctl_same_bytes (lcd_put s) argv (arg, rest, e, words, short) =
      rw
        (
          e,
          put_words-spaced (codes "PUT ") (arg ∷ rest) (omega (arith, short, ap length words)),
          words,
          take-eq_of_le 599 (codes "PUT " ++ s) (omega (arith, short)),
        )
        (send_cmd-agrees (codes "PUT " ++ s))
