-- ===== src/Timing.antt =====
-- `SmurfTime` and `SmurfValidCheck` of include/smurftcp.h and src/smurf_processor.cpp: the changes of the
-- clocks and counters from packet to packet. The log file is left out but for the decision to write a
-- line. `junk` stands for the words that a constructor leaves as they were.
pub mod Laws
mod Tests
use smurf_processor.Prelude.{
  ℕ, ◌+◌, ◌-◌, ◌*◌, ◌%◌, ◌^◌, ltb, ◌==◌, ◌&&◌, ◌||◌, if◌then◌else◌, Bool, true, false, List, [],
  ◌∷◌, Result, ok, ◌>>=◌,
}
use smurf_processor.Header.{
  get_epics_seconds, get_epics_nanoseconds, get_syncword, get_1hz_counter, get_frame_counter,
}

pub record Time : Type 0 where
  pub current : ℕ
  pub delta : ℕ
  pub mindelta : ℕ
  pub maxdelta : ℕ
  pub max_allowed_delta : ℕ
  pub min_allowed_delta : ℕ
  pub error_count : ℕ

abbrev pub new_time : ℕ → Time
new_time junk = record {
  current = 0;
  delta = 0;
  mindelta = junk;
  maxdelta = junk;
  max_allowed_delta = 1000000000;
  min_allowed_delta = 0;
  error_count = 0;
}

-- `update(val)`: the deltas are of 64 bits, and the smallest and largest are kept on 32.
unfoldable pub update : Time → ℕ → Time × Bool
update t val =
    let d = (val + 2 ^ 64 - t.current) % 2 ^ 64 in
    let jump = ltb t.max_allowed_delta d || ltb d t.min_allowed_delta in
    (
      record t {
        delta = d;
        current = val;
        mindelta = if ltb t.mindelta d then t.mindelta else d % 2 ^ 32;
        maxdelta = if ltb d t.maxdelta then t.maxdelta else d % 2 ^ 32;
        error_count = if jump then (t.error_count + 1) % 2 ^ 32 else t.error_count;
      },
      jump,
    )

abbrev pub reset : Time → Time
reset t = record t { mindelta = 1000000; maxdelta = 0 }

pub record ValidCheck : Type 0 where
  pub syncbox : Time
  pub timingsystem : Time
  pub counter_1hz : Time
  pub smurf_frame : Time
  pub unix_time : Time
  pub smurf2mce : Time
  pub init : Bool
  pub ready : Bool
  pub last_frame_jump : ℕ
  pub frame_wait : ℕ
  pub initial_timing_system : ℕ

abbrev pub new_valid_check : ℕ → ValidCheck
new_valid_check junk =
    let t = new_time junk in
    record {
      syncbox = record t { max_allowed_delta = 1 };
      timingsystem = record t { max_allowed_delta = 10000000 };
      counter_1hz = t;
      smurf_frame = record t { max_allowed_delta = 100 };
      unix_time = record t { max_allowed_delta = 10000000; min_allowed_delta = 2000000 };
      smurf2mce = record t { max_allowed_delta = 100000000 };
      init = false;
      ready = false;
      last_frame_jump = 0;
      frame_wait = 0;
      initial_timing_system = junk;
    }

-- `SmurfValidCheck::reset`: the two clocks of the computer keep their bounds.
abbrev pub valid_check_reset : ValidCheck → ValidCheck
valid_check_reset v = record v {
  syncbox = reset v.syncbox;
  timingsystem = reset v.timingsystem;
  counter_1hz = reset v.counter_1hz;
  smurf_frame = reset v.smurf_frame;
}

-- What `run` reads of the clock and of the header
pub record Clocks : Type 0 where
  pub unix : ℕ
  pub seconds : ℕ
  pub nanoseconds : ℕ
  pub sync : ℕ
  pub since_1hz : ℕ
  pub frame : ℕ

-- The part of `run` behind its wait for the start: the new state, and whether a line is logged
abbrev pub compare_clocks : ValidCheck → Clocks → ValidCheck × Bool
compare_clocks v c =
    let unix = update v.unix_time c.unix in
    let sync = update v.syncbox c.sync in
    let timing = update v.timingsystem ((1000000000 * c.seconds + c.nanoseconds) % 2 ^ 64) in
    let frame = update v.smurf_frame c.frame in
    let jump = unix.1 || sync.1 || timing.1 || frame.1 in
    let logged = jump && ltb ((v.last_frame_jump + v.frame_wait) % 2 ^ 32) c.frame in
    (
      record v {
        smurf2mce = (update v.smurf2mce c.unix).0;
        unix_time = unix.0;
        syncbox = sync.0;
        timingsystem = timing.0;
        counter_1hz = (update v.counter_1hz c.since_1hz).0;
        smurf_frame = frame.0;
        ready = true;
        last_frame_jump = if logged then c.frame % 2 ^ 32 else v.last_frame_jump;
      },
      logged,
    )

-- `run` with what it has read
abbrev pub run_clocks : ValidCheck → Clocks → ValidCheck × Bool
run_clocks v c =
    let started =
      if v.init then v else record v { initial_timing_system = c.seconds; init = true } in
    if ltb ((c.seconds + 2 ^ 64 - started.initial_timing_system) % 2 ^ 64) 30
    then (started, false)
    else compare_clocks started c

-- `run(H)` on the frame `h`; `unix` is what `get_unix_time` gives.
unfoldable pub run : ℕ → List ℕ → ℕ → ValidCheck → Result (ValidCheck × Bool)
run junk h unix v = do
  seconds ← get_epics_seconds junk h
  nanoseconds ← get_epics_nanoseconds junk h
  sync ← get_syncword junk h
  since_1hz ← get_1hz_counter junk h
  frame ← get_frame_counter junk h
  let c : Clocks = record {
    unix = unix;
    seconds = seconds;
    nanoseconds = nanoseconds;
    sync = sync;
    since_1hz = since_1hz;
    frame = frame;
  }
  ok (run_clocks v c)
