-- ===== src/RadioStore/Store.antt =====
-- enhancements/0001-zigbee-ember/src/RadioStore.mts: the class `RadioStore`. The constructor's
-- directory, the process id and the operating system's refusals are parameters.
use homey_shs_enhanced.DeviceErrors.{code_is}
use homey_shs_enhanced.Json.{Value}
use homey_shs_enhanced.Address.{to_hex}
use homey_shs_enhanced.RadioStore.Network.{
  file_mode, network_value, create_network, assert_stored_network, directory_mode, Draw,
}
use homey_shs_enhanced.Prelude.{
  plain_error, code_of, text, Option, Bool, List, Result, Text, ℕ, Thrown, ok, err, if◌then◌else◌,
  ◌++◌,
}
use homey_shs_enhanced.Disk.{
  rename, try_finally, open_exclusive, close, ignore, chmod, broken_text, remove, sync,
  chmod_directory, lift, read_file, write_file, json_text, try_catch, mkdir, Content, ◌>>=◌, ◌>>◌,
  Io,
}

-- `path.join(directory, name)`, for a normalised directory.
unfoldable pub network_path : Text → Text
network_path directory = directory ++ text "/network.json"

unfoldable pub backup_path : Text → Text
backup_path directory = directory ++ text "/coordinator-backup.json"

-- The name of a temporary file, from the six random bytes drawn for it.
unfoldable pub temporary_path : Text → Text → List ℕ → Text
temporary_path target pid bytes =
    target ++ text "." ++ pid ++ text "." ++ to_hex bytes ++ text ".tmp"

-- `JSON.parse`.
abbrev pub parse : Content → Result Value
parse (json_text v) = ok v
parse broken_text = err (plain_error (text "SyntaxError"))

-- `error && typeof error === 'object' && 'code' in error && error.code === 'ENOENT'`.
unfoldable pub is_no_entry : Thrown → Bool
is_no_entry error = code_is (code_of error) "ENOENT"

module _ (faults : ℕ → Option Thrown) (directory pid : Text) where
  unfoldable pub init : Io (Unit {0})
  init = do mkdir faults directory_mode; chmod_directory faults directory_mode

  -- `random` holds the random bytes of the temporary file's name.
  unfoldable pub write_json_atomic : List ℕ → Text → Value → Io (Unit {0})
  write_json_atomic random target value =
      let temporary = temporary_path target pid random in
      let fill = do write_file faults temporary (json_text value); sync faults
      in let give_up = λ (error : Thrown). do remove faults temporary; lift (err error)
        in let give_up_open = λ (error : Thrown). do ignore (close faults); give_up error
          in do
            init
            open_exclusive faults temporary file_mode
            try_finally (try_catch fill give_up_open) (ignore (close faults))
            try_catch (rename faults temporary target) give_up
            chmod faults target file_mode

  unfoldable pub write_network : List ℕ → Value → Io (Unit {0})
  write_network random network = do
    lift (assert_stored_network network)
    write_json_atomic random (network_path directory) network

  unfoldable pub write_backup : List ℕ → Value → Io (Unit {0})
  write_backup random backup = write_json_atomic random (backup_path directory) backup

  unfoldable pub read_network : Io Value
  read_network = do
    content ← read_file faults (network_path directory)
    parsed ← lift (parse content)
    lift (assert_stored_network parsed)
    chmod faults (network_path directory) file_mode
    lift (ok parsed)

  unfoldable pub create_and_write : List ℕ → Draw → ℕ → Io Value
  create_and_write random draw channel = do
    network ← lift (create_network draw channel)
    write_network random (network_value network)
    lift (ok (network_value network))

  unfoldable pub load_or_create_network : List ℕ → Draw → ℕ → Io Value
  load_or_create_network random draw initial_channel = do
    init
    try_catch read_network (λ error.
        if is_no_entry error
        then create_and_write random draw initial_channel
        else lift (err error))

  unfoldable pub reset_network : List ℕ → Draw → ℕ → Io Value
  reset_network random draw channel = do
    network ← lift (create_network draw channel)
    remove faults (backup_path directory)
    write_network random (network_value network)
    lift (ok (network_value network))
