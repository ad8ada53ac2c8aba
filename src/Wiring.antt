-- ===== src/Wiring.antt =====
-- worker_template/broker.py, scheduler.py and health_server.py: what their imports make of the
-- environment and of the settings. The objects of TaskIQ and FastAPI are the arguments that they get.
pub mod Imported
use worker_template.Prelude.{
  ℕ, String, Bool, Option, none, some, List, [], ◌∷◌, ◌++◌, str_eq, get_or, if◌then◌else◌,
}
use worker_template.Text.{◌+++◌}
use worker_template.Config.{Settings}

-- `AioPikaBroker` with the URL of its `RedisAsyncResultBackend`.
pub record AioPika : Type 0 where
  pub url : String
  pub queue_name : String
  pub max_priority : ℕ
  pub result_url : String

pub data Broker : Type 0 where
  in_memory : Broker
  aio_pika : AioPika → Broker

-- `broker`, by the variable `TASKIQ_ENV` of the environment.
unfoldable pub broker_for : Option String → Settings → Broker
broker_for taskiq_env settings =
    if str_eq (get_or taskiq_env "production") "test"
    then in_memory
    else aio_pika (record {
      url = settings.rabbitmq_url;
      queue_name = settings.rabbitmq_queue_name;
      max_priority = settings.rabbitmq_max_priority;
      result_url = settings.redis_url;
    })

-- `TaskiqScheduler`, with the brokers of its sources of schedules.
pub record Scheduler : Type 0 where
  pub broker : Broker
  pub label_sources : List Broker

abbrev pub scheduler_for : Broker → Scheduler
scheduler_for broker = record { broker = broker; label_sources = broker ∷ [] }

abbrev pub Content : Type 0
Content = List (String × String)

unfoldable pub health_check : Settings → Content
health_check settings = ("status", "healthy") ∷ ("service", settings.app_name) ∷ []

unfoldable pub readiness_check : Settings → Content
readiness_check settings = ("status", "ready") ∷ ("service", settings.app_name) ∷ []

-- What is at a path: an endpoint with its answer, or the application of the metrics.
pub data Route : Type 0 where
  endpoint : String → Content → Route
  mounted_metrics : String → Route

-- `health_app`, which has no pages of documentation.
pub record HealthApp : Type 0 where
  pub title : String
  pub routes : List Route

unfoldable pub health_app : Settings → HealthApp
health_app settings = record {
  title = settings.app_name +++ " Health";
  routes =
      endpoint "/health" (health_check settings)
      ∷ endpoint "/ready" (readiness_check settings)
      ∷ (if settings.enable_metrics then mounted_metrics "/metrics" ∷ [] else []);
}
