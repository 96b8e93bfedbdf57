-- ===== src/DeviceErrors.antt =====
-- enhancements/0001-zigbee-ember/src/device-errors.mts: what a user is told when the coordinator
-- does not start.
pub mod Laws
use homey_shs_enhanced.Prelude.{
  not, code_of, String, eq_fold, message_of, Bool, text_eq, List, ℕ, contains_fold, Option, Thrown,
  text, Text, starts_by, [], false, none, some, if◌then◌else◌, ◌==◌, ◌||◌, ◌++◌, ◌&&◌, ◌∷◌,
}

-- `.` of a regular expression matches no line terminator.
unfoldable pub is_terminator : ℕ → Bool
is_terminator c = c == 10 || c == 13 || c == 0x2028 || c == 0x2029

-- `q` stands in `s` before the end of the line.
unfoldable pub line_contains_fold : Text → Text → Bool
unfolding is_terminator starts_by eq_fold
line_contains_fold q [] = starts_by eq_fold q []
line_contains_fold q (c ∷ s) =
    starts_by eq_fold q (c ∷ s) || (not (is_terminator c) && line_contains_fold q s)

abbrev pub skip : Text → Text → Text
skip [] s = s
skip (_ ∷ p) [] = []
skip (_ ∷ p) (_ ∷ s) = skip p s

-- `/p.*q/i.test(s)`.
unfoldable pub contains_line_fold : Text → Text → Text → Bool
unfolding line_contains_fold starts_by eq_fold
contains_line_fold p q [] = starts_by eq_fold p [] && line_contains_fold q []
contains_line_fold p q (c ∷ s) =
    (starts_by eq_fold p (c ∷ s) && line_contains_fold q (skip p (c ∷ s)))
    || contains_line_fold p q s

-- `/a|b|.../i.test(s)`.
unfoldable pub contains_any_fold : List String → Text → Bool
unfolding contains_fold text
contains_any_fold [] s = false
contains_any_fold (p ∷ ps) s = contains_fold (text p) s || contains_any_fold ps s

-- `path.basename(p)` of POSIX: the last run of characters other than `/`.
unfoldable pub basename_from : Text → Text → Text → Text
basename_from last [] [] = last
basename_from last (c ∷ run) [] = c ∷ run
basename_from last [] (c ∷ s) =
    if c == b'/' then basename_from last [] s else basename_from last (c ∷ []) s
basename_from last (d ∷ run) (c ∷ s) =
    if c == b'/' then basename_from (d ∷ run) [] s else basename_from last (d ∷ run ++ c ∷ []) s

unfoldable pub basename : Text → Text
unfolding basename_from
basename p = basename_from [] [] p

-- `code === 'name'`.
unfoldable pub code_is : Option Text → String → Bool
unfolding text text_eq
code_is none name = false
code_is (some code) name = text_eq code (text name)

unfoldable pub is_missing : Option Text → Text → Bool
is_missing code message =
    code_is code "ENOENT" || contains_any_fold ("no such file" ∷ "does not exist" ∷ []) message

unfoldable pub is_forbidden : Option Text → Text → Bool
is_forbidden code message =
    code_is code "EACCES"
    || code_is code "EPERM"
    || contains_any_fold ("permission denied" ∷ "access denied" ∷ []) message

unfoldable pub is_busy : Option Text → Text → Bool
is_busy code message =
    code_is code "EBUSY"
    || contains_any_fold ("resource busy" ∷ "cannot lock" ∷ "already open" ∷ []) message

unfoldable pub is_firmware : Text → Bool
is_firmware message =
    contains_any_fold ("ash" ∷ "ezsp" ∷ "ncp" ∷ []) message
    || contains_line_fold (text "unsupported") (text "version") message
    || contains_line_fold (text "invalid") (text "frame") message
    || contains_any_fold ("reset code" ∷ []) message

unfoldable pub missing_text : Text → Text
missing_text device =
    text "Zigbee device "
    ++ device
    ++ text " does not exist. Map a stable /dev/serial/by-id/... path to /dev/zigbee."

unfoldable pub forbidden_text : Text → Text
forbidden_text device =
    text "Zigbee device "
    ++ device
    ++ text " is not accessible. Check the container device mapping and host permissions."

unfoldable pub busy_text : Text → Text
busy_text device =
    text "Zigbee device "
    ++ device
    ++ text " is busy. Stop the other Zigbee or Thread service using "
    ++ basename device
    ++ text "."

unfoldable pub firmware_text : Text → Text → Text
firmware_text device message =
    text "Unable to initialize Ember/EZSP on "
    ++ device
    ++ text ". Confirm the coordinator has Zigbee NCP firmware (not Thread/OpenThread firmware). "
    ++ text "Automatic flashing is intentionally disabled. Cause: "
    ++ message

unfoldable pub generic_text : Text → Text → Text
generic_text device message =
    text "Unable to initialize the Zigbee coordinator at " ++ device ++ text ": " ++ message

unfoldable pub describe_adapter_error : Thrown → Text → Text
describe_adapter_error error device =
    let message = message_of error in
    let code = code_of error in
    if is_missing code message
    then missing_text device
    else if is_forbidden code message
    then forbidden_text device
    else if is_busy code message
    then busy_text device
    else if is_firmware message
    then firmware_text device message
    else generic_text device message
