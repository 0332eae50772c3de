-- ===== src/Entrypoint/Settings.antt =====
-- `read_conf_file` of entrypoint.cpp reads the settings back, with a newline behind the file's name.
use btrx.Prelude.{
  suc, ◌-◌, ap, ℕ, ◌+◌, ◌^◌, ◌<◌, ◌≡◌, refl, ◌∙◌, false, some, List, [], ◌∷◌, ◌++◌, Option, ok,
  length, arith, length-append, replicate,
}
use mathlib.Core.List.{append_assoc}
use btrx.CString.{bytes_of, decimal, c_string, strncpy}
use btrx.CString.Copy.{NoNul, strncpy_terminated}
use btrx.CString.Tokens.{lines}
use btrx.CString.Words.{
  OneLine, IsWord, OneLine-append, decimal-IsWord, lines-line, strtok-word, strtok-line,
}
use btrx.CString.Decimal.{to_int-strtol-line}
use btrx.Json.{key_eq}
use btrx.Entrypoint.{Conf, read_conf_line, read_conf_lines, read_conf_file}

NoNul-OneLine : (s : List ℕ) → OneLine s → NoNul (s ++ 10 ∷ [])
NoNul-OneLine [] h = (omega arith, tt)
NoNul-OneLine (c ∷ s) h = (h.1, NoNul-OneLine s h.2)

c_string-NoNul : (s rest : List ℕ) → NoNul s → c_string (s ++ 0 ∷ rest) ≡ some s
unfolding c_string
c_string-NoNul [] rest h = refl
c_string-NoNul (c ∷ s) rest h = ground (arith, c_string-NoNul s rest h.1)

-- A line of the file: a named number, or the name of the shared file.
pub data Setting : Type 0 where
  value : List ℕ → ℕ → Setting
  file : List ℕ → Setting

abbrev printed : Setting → List ℕ
printed (value name n) = name ++ (32 ∷ decimal n)
printed (file name) = bytes_of "FileName" ++ (32 ∷ name)

-- The words are words, a number's name is not that of the file, and the line fits the buffer.
abbrev pub IsSetting : Setting → Type 0
IsSetting (value name n) =
    IsWord name
    × (key_eq name (bytes_of "FileName") ≡ false)
    × (n < 2 ^ 31)
    × (length (printed (value name n)) + 1 < 512)
IsSetting (file name) = IsWord name × (length (printed (file name)) + 1 < 512)

abbrev pub AllSettings : List Setting → Type 0
AllSettings [] = Unit {0}
AllSettings (s ∷ settings) = IsSetting s × AllSettings settings

abbrev pub conf_text : List Setting → List ℕ
conf_text [] = []
conf_text (s ∷ settings) = printed s ++ 10 ∷ conf_text settings

-- What is read of them.
abbrev pub read_settings : List ℕ → Conf → List Setting → Conf
read_settings peerid conf [] = conf
read_settings peerid conf (value name n ∷ settings) =
    read_settings peerid (record conf { vals = conf.vals ++ n ∷ [] }) settings
read_settings peerid conf (file name ∷ settings) =
    read_settings peerid (record conf { sh_fname = peerid ++ b'/' ∷ (name ++ 10 ∷ []) }) settings

file_name-IsWord : IsWord (bytes_of "FileName")
file_name-IsWord = record { some_byte = λ e. cc; one_line = omega arith; no_space = omega arith }

-- The copy of a line that fits the buffer is the line.
copied :
    (line : List ℕ)
    → NoNul line
    → length line < 512
    → (tmp : List ℕ) × (strncpy 512 (line ++ 0 ∷ []) ≡ ok tmp) × (c_string tmp ≡ some line)
copied line clean h =
    let left : 512 - length line ≡ suc (511 - length line) = omega arith in
    (
      line ++ replicate (512 - length line) 0,
      strncpy_terminated 512 line [] clean h,
      rw left (c_string-NoNul line (replicate (511 - length line) 0) clean),
    )

-- A line of two words, copied and taken apart.
two_words :
    (first second : List ℕ)
    → IsWord first
    → IsWord second
    → length (first ++ (32 ∷ second)) + 1 < 512
    → (tmp : List ℕ) × (strncpy 512 (((first ++ (32 ∷ second)) ++ 10 ∷ []) ++ 0 ∷ []) ≡ ok tmp)
      × (c_string tmp ≡ some (first ++ (32 ∷ (second ++ 10 ∷ []))))
two_words first second v w h =
    let whole : List ℕ = first ++ (32 ∷ second) in
    let one_line : OneLine whole =
      OneLine-append first (32 ∷ second) v.one_line (omega arith, omega arith, w.one_line) in
    let (tmp, done, read) =
      copied (whole ++ 10 ∷ []) (NoNul-OneLine whole one_line)
        (omega (arith, length-append whole (10 ∷ []))) in
    (tmp, done, read ∙ ap some (append_assoc first (32 ∷ second) (10 ∷ [])))

read_value :
    (peerid : List ℕ) (conf : Conf) (name : List ℕ) (n : ℕ)
    → IsSetting (value name n)
    → read_conf_line peerid conf (printed (value name n) ++ 10 ∷ [])
      ≡ ok (record conf { vals = conf.vals ++ n ∷ [] })
unfolding read_conf_line
read_value peerid conf name n v =
    let number = decimal-IsWord n in
    let (tmp, done, read) = two_words name (decimal n) v.0 number v.3 in
    rw
      (
        done,
        read,
        strtok-word name (decimal n ++ 10 ∷ []) v.0,
        strtok-line (decimal n) number,
        v.1,
        to_int-strtol-line n v.2,
      )
      refl

read_file :
    (peerid : List ℕ) (conf : Conf) (name : List ℕ)
    → IsSetting (file name)
    → read_conf_line peerid conf (printed (file name) ++ 10 ∷ [])
      ≡ ok (record conf { sh_fname = peerid ++ b'/' ∷ (name ++ 10 ∷ []) })
unfolding read_conf_line key_eq
read_file peerid conf name v =
    let (tmp, done, read) = two_words (bytes_of "FileName") name file_name-IsWord v.0 v.1 in
    rw
      (
        done,
        read,
        strtok-word (bytes_of "FileName") (name ++ 10 ∷ []) file_name-IsWord,
        strtok-line name v.0,
      )
      refl

printed-OneLine : (s : Setting) → IsSetting s → OneLine (printed s)
printed-OneLine (value name n) v =
    OneLine-append name (32 ∷ decimal n) v.0.one_line
      (omega arith, omega arith, (decimal-IsWord n).one_line)
printed-OneLine (file name) v =
    OneLine-append (bytes_of "FileName") (32 ∷ name) file_name-IsWord.one_line
      (omega arith, omega arith, v.0.one_line)

read_lines :
    (peerid : List ℕ) (conf : Conf) (settings : List Setting)
    → AllSettings settings
    → read_conf_lines peerid conf (lines (conf_text settings))
      ≡ ok (read_settings peerid conf settings)
unfolding read_conf_lines lines
read_lines peerid conf [] v = refl
read_lines peerid conf (value name n ∷ settings) v =
    rw
      (
        lines-line (printed (value name n)) (conf_text settings)
            (printed-OneLine (value name n) v.0),
        read_value peerid conf name n v.0,
      )
      (read_lines peerid (record conf { vals = conf.vals ++ n ∷ [] }) settings v.1)
read_lines peerid conf (file name ∷ settings) v =
    rw
      (
        lines-line (printed (file name)) (conf_text settings) (printed-OneLine (file name) v.0),
        read_file peerid conf name v.0,
      )
      (read_lines peerid (record conf { sh_fname = peerid ++ b'/' ∷ (name ++ 10 ∷ []) }) settings
        v.1)

-- A configuration file of settings, a line to each and each shorter than the buffer, is read back,
-- where the names are words, the numbers are below 2 ^ 31 and stand under other names than the
-- file: the numbers in order, and the shared file's path, which is the peer's number, a slash, the
-- name of the last file setting and the newline behind it.
pub read_conf_file-settings :
    (texts : List ℕ → Option (List ℕ)) (fname peerid : List ℕ) (settings : List Setting)
    → AllSettings settings
    → texts fname ≡ some (conf_text settings)
    → read_conf_file texts fname peerid
      ≡ ok (read_settings peerid (record { sh_fname = []; vals = [] }) settings)
unfolding read_conf_file
read_conf_file-settings texts fname peerid settings v there =
    rw (read_conf_file, there, read_lines peerid (record { sh_fname = []; vals = [] }) settings v)
      refl
