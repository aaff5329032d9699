-- ===== src/Tests/Environments.antt =====
-- An environment in which every call succeeds, and the variations that the tests need.
use libservice.Prelude.{◌*◌, pos, lit, Text, some, true}
use libservice.Os.{Env, create_excl, read_write, read_only, ok, fail, in_child, end_of_file, Passwd}
use libservice.PidFile.{eexist, eagain, ebadf}
use libservice.PidFile.Signalling.{sleeps_in}

abbrev pub user_entry : Passwd
user_entry = record {
  uid = 1000;
  gid = 1000;
  name = lit "daemon";
  dir = lit "/";
  shell = lit "/bin/sh";
}

-- The clocks go on by a second with every sleep.
abbrev pub calm : Env
calm = record {
  getpid = λ t. pos 100;
  errno = λ t. 0;
  opens = λ t mode path. ok 3;
  fdopens = λ t fd. ok tt;
  scans = λ t fd. some (pos 77);
  locks = λ t fd. ok tt;
  unlinks = λ t path. ok tt;
  kills = λ t pid signo. ok tt;
  clock = λ t. sleeps_in t;
  steady = λ t. sleeps_in t * 1000000000;
  makes_directories = λ t path. ok tt;
  parent_path = λ path. path;
  cast_time = λ s. some (pos 2);
  succeeds = λ t c. ok tt;
  users = λ t name. some user_entry;
  groups = λ t name. some 50;
  users_by_id = λ t uid. some user_entry;
  effective = λ t. record { uid = 0; gid = 0 };
  pipes = λ t. ok (6, 7);
  forks = λ t. in_child;
  reads = λ t fd. end_of_file;
  opens_null = λ t. pos 9;
  receives = λ t fd. ok (lit "ready");
  sends = λ t fd s. ok tt;
  running = λ t. true;
  contents = λ t path. some (lit "");
  written = λ t path. some (pos 5);
  absolute = λ path. path;
}

-- Another process, 77, holds the lock of the pid file.
abbrev pub occupied : Env
occupied = record calm {
  opens =
      λ t mode path. elim mode [ create_excl ↦ fail eexist | read_write ↦ ok 4 | read_only ↦ ok 5 ];
  locks = λ t fd. fail eagain;
}

-- The lock is refused on a descriptor that was opened for reading only.
abbrev pub read_only_lock : Env
read_only_lock = record calm {
  opens = λ t mode path. elim mode [ create_excl ↦ ok 3 | read_write ↦ ok 4 | read_only ↦ ok 5 ];
  locks = λ t fd. fail ebadf;
}

abbrev pub pid_path : Text
pid_path = lit "/run/service.pid"
