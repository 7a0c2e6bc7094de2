-- ===== src/Azurectl/Files.antt =====
-- package/evi-azurectl/src/utils.c, package/evi-azurectl/src/netinfo.c and
-- package/evi-azurectl/src/procctl.c: lines of files and of commands.
pub mod RoundTrip
use python2c.Base.{
  ℕ, zero, suc, ◌-◌, pos, negsuc, Bool, true, false, List, [], ◌∷◌, ◌++◌, Option, none, some, Bytes,
  codes, str_eq, if◌then◌else◌, ℤ,
}
use python2c.Base.Scan.{atoi}
use python2c.Azurectl.Uci.{Shell, fgets, strip_eol, fit}

-- The files, which of them can be opened for writing, whether `fputs` writes a text, and what it
-- leaves if it does not.
pub record Disk : Type 0 where
  pub content : Bytes → Option Bytes
  pub writable : Bytes → Bool
  pub writes : Bytes → Bool
  pub torso : Bytes → Bytes

abbrev pub set_content : Bytes → Bytes → Disk → Disk
set_content path s d = record d {
  content = λ other. if str_eq path other then some s else d.content other;
}

-- The line that `fgets` gives, without its end.
unfoldable pub line_of : ℕ → Bytes → Option Bytes
unfolding fgets strip_eol
line_of outlen text = elim (fgets outlen text) [ none ↦ none | some line ↦ some (strip_eol line) ]

unfoldable pub read_file_line : Bytes → ℕ → Disk → Option Bytes
unfolding line_of
read_file_line path outlen d = elim (d.content path) [
  | none ↦ none
  | some text ↦ line_of outlen text
]

-- Whether 0 is returned, and the files afterwards.
unfoldable pub write_file : Bytes → Bytes → Disk → Bool × Disk
write_file path s d =
    if d.writable path
    then if d.writes s
      then (true, set_content path s d)
      else (false, set_content path (d.torso s) d)
    else (false, d)

module _ (sh : Shell) where
  unfoldable pub get_mac : Bytes → ℕ → sh.State → Option Bytes
  unfolding line_of
  get_mac ifname outlen s =
      elim (sh.popen
        (fit 256 (codes "ifconfig " ++ (ifname ++ codes " | grep HWaddr | awk '{print $5}'"))) s) [
          | none ↦ none
          | some printed ↦ line_of outlen printed
        ]

  -- The pause of three seconds is none of the model's.
  unfoldable pub get_wifi_signal : ℕ → sh.State → Option Bytes × sh.State
  unfolding line_of
  get_wifi_signal outlen s = elim (sh.popen (codes "uci get wireless.sta.ssid") s) [
    | none ↦ (none, s)
    | some printed ↦ elim (line_of 128 printed) [
      | none ↦ (none, s)
      | some ssid ↦
          let (code, scanned) = sh.system (codes "iwpriv ra0 set SiteSurvey=1") s in
          (
            elim (sh.popen
                (fit 512 (
                  codes "iwpriv ra0 get_site_survey|grep -w "
                  ++ (ssid ++ codes "|awk '{print $5}'")))
                scanned) [ none ↦ none | some found ↦ line_of outlen found ],
            scanned,
          )
    ]
  ]

pub data Signal : Type 0 where
  sigstop sigcont : Signal

-- The process named by /tmp/mainPid gets the signal; `kill` is what the call of that name
-- returns. The result is what is returned, and the signals sent.
unfoldable pub procctl : (ℤ → Signal → ℤ) → Signal → Disk → ℤ × List (ℤ × Signal)
unfolding fgets
procctl kill sig d = elim (d.content (codes "/tmp/mainPid")) [
  | none ↦ (negsuc 0, [])
  | some text ↦ elim (fgets 32 text) [
    | none ↦ (negsuc 0, [])
    | some buf ↦ elim (atoi buf) [
      | pos zero ↦ (negsuc 0, [])
      | pos (suc n) ↦ (kill (pos (suc n)) sig, (pos (suc n), sig) ∷ [])
      | negsuc n ↦ (negsuc 0, [])
    ]
  ]
]

abbrev pub procctl_freeze : (ℤ → Signal → ℤ) → Disk → ℤ × List (ℤ × Signal)
procctl_freeze kill = procctl kill sigstop

abbrev pub procctl_thaw : (ℤ → Signal → ℤ) → Disk → ℤ × List (ℤ × Signal)
procctl_thaw kill = procctl kill sigcont
