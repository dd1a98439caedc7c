-- ===== src/Adapter/Dispatch.antt =====
-- pkg/adapter/adapter.go: the loop that hands the events of the registry and of the configuration center
-- to the handlers.
pub mod Panics
pub mod Published
use meshach.Prelude.{Option, none, some, List, [], ◌∷◌, ◌++◌, Text}
use meshach.Client.Actions.{Outcome, done, fail, panic, Action, pure, deref, ◌>>=◌, ◌>>◌}
use meshach.Adapter.Types.{
  Service, ServiceEventType, service_added, service_deleted, service_instance_added,
  service_instance_deleted, service_instances_replace, ServiceEvent, ConfigEventType,
  config_entry_added, config_entry_changed, config_entry_deleted, ConfigEvent,
}
use meshach.Adapter.Handler
use meshach.Adapter.Handler.{KubeHandler, ScopedServices, no_operation}

-- component.EventHandler
pub record EventHandler (S : Type 0) : Type 0 where
  pub add_service : ServiceEvent → Action S Unit
  pub delete_service : ServiceEvent → Action S Unit
  pub add_instance : ServiceEvent → Action S Unit
  pub replace_instances : ServiceEvent → Action S Unit
  pub delete_instance : ServiceEvent → Action S Unit
  pub replace_accessor_instances : ServiceEvent → ScopedServices → Action S Unit
  pub add_config_entry : ConfigEvent → Action S Unit
  pub change_config_entry : ConfigEvent → Action S Unit
  pub delete_config_entry : ConfigEvent → Action S Unit

-- KubeSingleClusterEventHandler as an EventHandler
unfoldable pub kube_handler : {S : Type 0} → KubeHandler S → EventHandler S
kube_handler h = record {
  add_service = no_operation h;
  delete_service = Handler.delete_service h;
  add_instance = no_operation h;
  replace_instances = Handler.replace_instances h;
  delete_instance = no_operation h;
  replace_accessor_instances = Handler.replace_accessor_instances h;
  add_config_entry = Handler.add_config_entry h;
  change_config_entry = Handler.change_config_entry h;
  delete_config_entry = Handler.delete_config_entry h;
}

-- What Accelerate is called with, in the order of the calls: the key and the task.
abbrev pub Tasks : Type 0 → Type 0
Tasks S = List (Text × Action S Unit)

-- The state of the cluster and the tasks that are handed to the accelerator
abbrev pub Adapter : Type 0 → Type 0
Adapter S = S × Tasks S

module _ {S : Type 0} where
  -- `for _, h := range a.eventHandlers { call(h) }`: a panic ends the program.
  unfoldable pub call_each :
      (EventHandler S → Action S Unit) → List (EventHandler S) → Action S Unit
  call_each call [] = pure tt
  call_each call (h ∷ handlers) = do called ← call h; call_each call handlers

  -- The same with a task of the accelerator for each handler
  unfoldable pub tasks_of :
      (EventHandler S → Action S Unit) → Text → List (EventHandler S) → Tasks S
  tasks_of call key [] = []
  tasks_of call key (h ∷ handlers) = (key, call h) ∷ tasks_of call key handlers

  -- Accelerate at a size of 0 or less runs each task in the call.
  unfoldable pub run_tasks : Tasks S → Action S Unit
  run_tasks [] = pure tt
  run_tasks ((key, fn) ∷ tasks) = do ran ← fn; run_tasks tasks

  at_once : Action S Unit → Action (Adapter S) Unit
  at_once action (s, tasks) = let (r, s') = action s in (r, (s', tasks))

  by_service_type :
      List (EventHandler S) → ServiceEventType → Text → ServiceEvent → Action (Adapter S) Unit
  unfolding call_each tasks_of at_once
  by_service_type handlers service_added name se =
      at_once (call_each (λ h. h.add_service se) handlers)
  by_service_type handlers service_deleted name se =
      at_once (call_each (λ h. h.delete_service se) handlers)
  by_service_type handlers service_instance_added name se =
      at_once (call_each (λ h. h.add_instance se) handlers)
  by_service_type handlers service_instances_replace name se =
      λ st. (done tt, (st.0, st.1 ++ tasks_of (λ h. h.replace_instances se) name handlers))
  by_service_type handlers service_instance_deleted name se =
      at_once (call_each (λ h. h.delete_instance se) handlers)

  -- The case of a service event: the log line reads `se.Service.Name` before all else.
  unfoldable pub on_service_event : List (EventHandler S) → ServiceEvent → Action (Adapter S) Unit
  unfolding by_service_type
  on_service_event handlers se = do
    service ← deref se.service
    by_service_type handlers se.event_type service.name se

  -- The case of an accessor event: only a replacement is handled.
  by_accessor_type :
      List (EventHandler S)
      → ScopedServices
      → ServiceEventType
      → ServiceEvent
      → Action (Adapter S) Unit
  unfolding tasks_of
  by_accessor_type handlers get_cached_scoped_mapping service_instances_replace ae = do
    service ← deref ae.service
    λ st. (
      done tt,
      (
        st.0,
        st.1
            ++ tasks_of (λ h. h.replace_accessor_instances ae get_cached_scoped_mapping)
                service.name handlers,
      ),
    )
  by_accessor_type handlers get_cached_scoped_mapping service_added ae = pure tt
  by_accessor_type handlers get_cached_scoped_mapping service_deleted ae = pure tt
  by_accessor_type handlers get_cached_scoped_mapping service_instance_added ae = pure tt
  by_accessor_type handlers get_cached_scoped_mapping service_instance_deleted ae = pure tt

  unfoldable pub on_accessor_event :
      List (EventHandler S) → ScopedServices → ServiceEvent → Action (Adapter S) Unit
  unfolding by_accessor_type
  on_accessor_event handlers get_cached_scoped_mapping ae =
      by_accessor_type handlers get_cached_scoped_mapping ae.event_type ae

  by_config_type : List (EventHandler S) → ConfigEventType → ConfigEvent → Action S Unit
  unfolding call_each
  by_config_type handlers config_entry_added ce = call_each (λ h. h.add_config_entry ce) handlers
  by_config_type handlers config_entry_changed ce =
      call_each (λ h. h.change_config_entry ce) handlers
  by_config_type handlers config_entry_deleted ce =
      call_each (λ h. h.delete_config_entry ce) handlers

  unfoldable pub on_config_event : List (EventHandler S) → ConfigEvent → Action (Adapter S) Unit
  unfolding by_config_type at_once
  on_config_event handlers ce = at_once (by_config_type handlers ce.event_type ce)
