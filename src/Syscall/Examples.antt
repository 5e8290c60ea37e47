-- ===== src/Syscall/Examples.antt =====
-- The theorems of the system calls at inputs that meet their hypotheses, and the arguments of a child
-- laid out.
use lazers.Base.{◌+◌, ◌-◌, ◌<◌, true, List, [], ◌∷◌, ◌++◌, ◌≡◌, ◌↔◌, refl, arith}
use lazers.Base.Words.{Bytes, word}
use lazers.Base.Text.{codes, contains}
use lazers.Base.Results.{ok, err}
use lazers.Path.{file_not_found, not_a_directory}
use lazers.Scheduler.Services.{EnvironmentAccessError}
use lazers.Scheduler.Services as Services
use lazers.Scheduler.Services.{RootFs}
use lazers.Terminal as Terminal
use lazers.Thread.{zeroed}
use lazers.Base.{none}
use lazers.Syscall.Abi as Abi
use lazers.Syscall.Dispatch.{dispatch, TrapFrame}
use lazers.Syscall.Handlers.{Machine}
use lazers.Syscall.Wrappers.{frame_of}
use lazers.Syscall.Environment.{syscall_get_env-set_env}
use lazers.Env as Env
use lazers.Env.{pair}
use lazers.Base.{some, true}
use lazers.Base.Text.{from_utf8, equal}
use lazers.Scheduler.Examples.{shell, shell_runs}
use lazers.Scheduler.Services.{put_process, current_process_set_env}
use lazers.Syscall.UserMemory.{store, bytes_at, user_slice, validate_user_buffer}
use lazers.Syscall.Handlers.{user_text, syscall_set_env, syscall_get_env}
use lazers.Syscall.Safe.Calls.{KernelKept, dispatch-KernelKept}
use lazers.Syscall.UserMemory.{validate_user_buffer, user_image_base}
use lazers.Syscall.Handlers.{
  spawn_status, read_dir_status, chdir_status, read_file_status, get_env_status, set_env_status,
  unset_env_status, list_env_status,
}
use lazers.Syscall.Wrappers.{
  spawn_wait_result, read_dir_result, chdir_result, read_file_result, get_env_result,
  set_env_result, unset_env_result, list_env_result, serialize_spawn_args,
}
use lazers.Syscall.RoundTrip.Environment.{
  get_env_view, list_env_view, set_env_view, unset_env_view, environment-read_back,
}
use lazers.Syscall.RoundTrip.Files.{read_file_view, read_dir_view, chdir_view, files-read_back}
use lazers.Syscall.RoundTrip.Spawn.{spawn_wait_result-status_iff}

environment-read_back_example :
    (get_env_result (get_env_status (ok 5)) ≡ get_env_view (ok 5))
    × (list_env_result (list_env_status (ok 5)) ≡ list_env_view (ok 5))
    × (set_env_result (set_env_status (err Services.key_too_long))
        ≡ set_env_view (err Services.key_too_long))
    × (unset_env_result (unset_env_status (err Services.key_too_long))
        ≡ unset_env_view (err Services.key_too_long))
environment-read_back_example =
    environment-read_back (ok 5) (err Services.key_too_long) (omega arith)

files-read_back_example :
    (read_file_result (read_file_status (err file_not_found)) ≡ read_file_view (err file_not_found))
    × (read_dir_result (read_dir_status (err file_not_found)) ≡ read_dir_view (err file_not_found))
    × (chdir_result (chdir_status (err not_a_directory)) ≡ chdir_view (err not_a_directory))
files-read_back_example = files-read_back (err file_not_found) (err not_a_directory) (omega arith)

spawn_wait_result-status_iff_example :
    (spawn_wait_result (spawn_status (ok (word - 1))) ≡ ok (word - 1)) ↔ (word - 1 < word - 4)
spawn_wait_result-status_iff_example = spawn_wait_result-status_iff (word - 1) (omega arith)

abbrev arguments : List Bytes
arguments = codes "-l" ∷ [] ∷ codes "a b" ∷ []

abbrev laid_out : Bytes
laid_out = codes "-l" ++ (0 ∷ 0 ∷ codes "a b") ++ (0 ∷ [])

serialize_spawn_args-arguments : serialize_spawn_args arguments [] ≡ ok laid_out
unfolding serialize_spawn_args contains
serialize_spawn_args-arguments = refl

-- A file system in which nothing is found.
abbrev no_files : RootFs
no_files = record {
  ensure_dir = λ path. some (err file_not_found);
  read_file_into = λ path buffer. some (buffer, err file_not_found);
  read_dir = λ path buffer. some (buffer, err file_not_found);
}

-- A machine before its first thread, its memory blank.
abbrev pub starting : Machine
starting = record {
  scheduler = record {
    processes = [];
    threads = [];
    stacks = λ id. 0;
    current_thread = none;
    idle_thread = none;
    bootstrap_context = zeroed;
  };
  memory = λ address. 0;
  terminal = Terminal.new;
}

-- A read of 16 bytes to the start of the image.
abbrev pub reading : TrapFrame
reading = frame_of Abi.read 0 user_image_base 16 0

dispatch-KernelKept_example : KernelKept starting (dispatch no_files reading starting)
dispatch-KernelKept_example =
    dispatch-KernelKept no_files (λ path buffer. refl) (λ path buffer. refl) reading starting

-- The shell runs; its image starts with a name and a value.
abbrev before_set : Machine
before_set = record starting {
  scheduler = shell_runs;
  memory = store user_image_base (codes "LANG" ++ codes "en") (λ address. 0);
}

abbrev after_set : Machine
after_set = record before_set {
  scheduler =
      put_process 1
        (record shell { env = record { entries = pair (codes "LANG") (codes "en") ∷ [] } })
        shell_runs;
}

key_in_memory : user_text before_set.memory user_image_base 4 ≡ some (codes "LANG")
unfolding user_slice validate_user_buffer from_utf8
key_in_memory = refl

value_in_memory : user_text before_set.memory (user_image_base + 4) 2 ≡ some (codes "en")
unfolding user_slice validate_user_buffer from_utf8
value_in_memory = refl

buffer_valid : validate_user_buffer (user_image_base + 16) 8 ≡ true
unfolding validate_user_buffer
buffer_valid = refl

variable_set :
    syscall_set_env user_image_base 4 (user_image_base + 4) 2 before_set ≡ some (after_set, 0)
unfolding syscall_set_env current_process_set_env set_env_status user_slice validate_user_buffer
    from_utf8 Env.set Env.find_index Env.validate_key equal
variable_set = refl

syscall_get_env-set_env_example :
    (m'' : Machine) × (syscall_get_env user_image_base 4 (user_image_base + 16) 8 after_set
      ≡ some (m'', 2))
    × (bytes_at m''.memory (user_image_base + 16) 2 ≡ codes "en")
syscall_get_env-set_env_example =
    syscall_get_env-set_env user_image_base 4 (user_image_base + 4) 2 (user_image_base + 16) 8
      before_set after_set (codes "LANG") (codes "en") key_in_memory value_in_memory buffer_valid
      (omega arith) variable_set
