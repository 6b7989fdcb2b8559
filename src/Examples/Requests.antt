-- ===== src/Examples/Requests.antt =====
-- Requests to the daemon of crates/daemon/src/rpc.rs and crates/daemon/src/host.rs that fail.
use recurse.Base.{
  ℕ, ◌+◌, ◌==◌, ◌||◌, ◌&&◌, ltb, all, List, Option, if◌then◌else◌, refl, false, none, some, [],
  codes, ok, text_cmp, arith, sym, ◌∙◌, ◌≡◌, Bool, true, not,
}
use recurse.Protocol.Cell.{CellStatus, empty}
use recurse.Protocol.Rpc.{KernelState}
use recurse.Protocol.Host
use recurse.Base.Dict.{get}
use recurse.Protocol.Target.{is_valid, key, as_str}
use recurse.Daemon.Registry.{
  unregistered, missing, fail_child, find_child, child_mut, admit, registration,
}
use recurse.Daemon.Registry.Calls.{empty_registry}
use recurse.Daemon.Api.{KernelApi, Env, App}
use recurse.Daemon.State.{update}
use recurse.Daemon.Host.{handle, spawn_change}
use recurse.Daemon.Host.Atomic.{SameState, handle_failed}
use recurse.Daemon.Rpc.{dispatch, answer, request_target, fail_change, status_for}
use recurse.Base.Lines.{strip_prefix}
use recurse.Daemon.Server.{authorized, constant_time_eq, difference}
use recurse.Daemon.Rpc.Handle.{Codec, Response, handle_rpc, reply}
use recurse.Daemon.Rpc.Served.{body_runs, handle_rpc_failed}
use recurse.Protocol.Method.{Json, value, failure, parse_request}
use recurse.Examples.{alice, one_queue}
use recurse.Examples.Children.{test_runtime, spawn_helper}
use recurse.Examples.Listeners.{both_ok}

-- Kernels that only count the cells they run.
abbrev pub counting : KernelApi
counting = record {
  Kernels = ℕ;
  execute = λ entry depth params at. (ok (empty CellStatus.ok at.1 0), (at.0, at.1 + 1));
  interrupt = λ target kernels. (false, kernels);
  restart = λ target kernels. 0;
  shutdown_target = λ target kernels. 0;
  status = λ target cwd kernels. record {
    state = KernelState.idle;
    pid = none;
    execution_count = kernels;
    started_at = none;
    cwd = cwd;
    handles = [];
  };
}

abbrev pub test_env : Env
test_env = record { runtime = test_runtime; writes = both_ok; max_depth = 1; discover = λ cwd. [] }

abbrev pub some_app : App counting
some_app = record {
  state = record {
    core = record { registry = empty_registry; queue = one_queue; notify = [] };
    disk = record { registry_file = none; events_file = none };
    sent = [];
  };
  kernels = 0;
}

-- JSON values of which each is `{}` or `null`, and stands for a child that is not there.
abbrev pub empty_only : Json
empty_only = record {
  Value = Bool;
  null = false;
  is_null = not;
  empty_object = true;
  as_empty = λ v. value tt;
  as_spawn = λ v. failure (codes "missing field");
  as_delete = λ v. failure (codes "missing field");
  as_message = λ v. failure (codes "missing field");
  as_finished = λ v. failure (codes "missing field");
  as_withdraw = λ v. failure (codes "missing field");
  as_register = λ v. failure (codes "missing field");
  as_execute = λ v. failure (codes "missing field");
  as_target = λ v. failure (codes "missing field");
  as_bind = λ v. failure (codes "missing field");
  as_fail =
      λ v. value (record { target = alice; child_id = codes "c_1"; reason = codes "no model" });
  as_child = λ v. failure (codes "missing field");
  as_ack = λ v. failure (codes "missing field");
  as_skills = λ v. value none;
}

-- `HeaderValue::to_str`.
abbrev pub visible_ascii : List ℕ → Option (List ℕ)
visible_ascii header =
    if all (λ b. b == 9 || (ltb 31 b && ltb b 127)) header then some header else none

-- Every body is a call of `children.fail`.
abbrev one_request : Codec empty_only
one_request = record {
  from_slice = λ bytes. value true;
  id_of = λ v. some v;
  as_request = λ v. value (record { id = some v; method = codes "children.fail"; params = some v });
  to_value = λ reply. true;
  to_str = visible_ascii;
}

abbrev missing_child : Response Bool × App counting
missing_child =
    handle_rpc empty_only one_request counting test_env (some (codes "s3cret"))
      (some (codes "Bearer s3cret")) (codes "{}") some_app

missing_child_status : missing_child.0.status ≡ 400
unfolding handle_rpc authorized constant_time_eq difference strip_prefix parse_request reply
    status_for dispatch request_target is_valid answer update fail_change fail_child find_child
    child_mut key as_str text_cmp missing
missing_child_status = refl

handle_rpc_failed_example : SameState some_app.state missing_child.1.state
unfolding body_runs parse_request text_cmp
handle_rpc_failed_example =
    handle_rpc_failed empty_only one_request counting test_env (some (codes "s3cret"))
      (some (codes "Bearer s3cret")) (codes "{}") some_app refl
      (λ h. absurd (omega (arith, sym missing_child_status ∙ h)))

handle_failed_example :
    SameState some_app.state
      (handle counting test_env alice 42 (Host.spawn spawn_helper) some_app).1.state
unfolding handle update spawn_change admit registration get
handle_failed_example =
    handle_failed counting test_env alice 42 (Host.spawn spawn_helper) some_app (unregistered alice)
      refl
