-- ===== src/Throwing/Tests.antt =====
-- The theorems about exceptions at two frames, 100 above 200, of which the second has a handler for the
-- superclass 20 of the exception's class 10.
use mjvmk.Base.{ℕ, ◌*◌, ◌≡◌, false, none, List, [], ◌∷◌, ◌==◌, if◌then◌else◌, refl, arith}
use mjvmk.Ready.{nobody_ready}
use mjvmk.Sched.{Sched, active, running}
use mjvmk.Classes.{ClassDef}
use mjvmk.Throwing.{Handler, Machine, Throw, found_handler}
use mjvmk.Throwing.Handlers.{first_catching, found_handler-first}

abbrev at_rest : Sched
at_rest = record {
  ready = nobody_ready;
  threads = λ t. record {
    state = active;
    active_status = running;
    current_priority = 31;
    joining_threads = [];
    joined_thread = none;
    wait_monitor_depth = 0;
    wait_monitor = none;
    interrupted = false;
  };
  monitors = λ k. record { depth = 0; owner = none; asleep_list = []; blocked_list = [] };
  semaphores = λ k. record { counter = 0; blocked_list = [] };
  asleep_list = [];
  active_list = [];
  active_count = 0;
  timers = [];
  timer_entry = 0;
  current = 0;
}

abbrev class_def : ℕ → ClassDef
class_def c = record {
  is_array = false;
  is_primitive_array = false;
  is_interface = false;
  element_class = 0;
  super_class = if c == 10 then 20 else 0;
  super_interfaces = [];
  instance_fields = [];
  static_fields = [];
  instance_methods = [];
  static_methods = [];
  virtual_method_count = 0;
}

abbrev catch_twenty : Handler
catch_twenty = record {
  start_pc_index = 4;
  end_pc_index = 9;
  handler_pc_index = 30;
  catch_key = 2000;
}

abbrev catch_other : Handler
catch_other = record catch_twenty { catch_key = 3000 }

abbrev handlers : List Handler
handlers = catch_other ∷ catch_twenty ∷ []

abbrev machine : Machine
machine = record {
  classes = class_def;
  keys = λ c. 100 * c;
  frames = λ fp. record {
    method = record {
      code = 5000;
      throwable_handlers = if fp == 200 then handlers else [];
      is_synchronized = false;
    };
    previous_pc = 5006;
    previous_fp = 200;
    monitor = 0;
  };
  class_of = λ o. 10;
  illegal_monitor_state = 900;
}

found_handler-first_example :
    found_handler 1 machine 10 6 handlers ≡ first_catching machine (10 ∷ 20 ∷ []) 6 handlers
found_handler-first_example =
    found_handler-first machine 1 10 (10 ∷ 20 ∷ [])
      (refl, (λ e. omega (arith, e)), (refl, (λ e. omega (arith, e)), refl)) (λ e. omega (arith, e))
      (omega arith) 6 handlers

abbrev thrown : Throw
thrown = record { fp = 100; pc = 5012; throwable = 800; sched = at_rest }

abbrev below : Throw
below = record thrown { fp = 200; pc = 5006 }

abbrev line_of : ℕ → List ℕ
line_of o = 10 ∷ 20 ∷ []
