-- ===== src/Api.antt =====
-- src/llm_home_lab/api/app.py: what the routes and middlewares of the service do with the parts behind
-- them. The answer of a route is its status with the type and the code of an error; the texts of the
-- messages, the log lines and the bodies of JSON are left out.
pub mod Errors
pub mod Auth
pub mod Hosts
pub mod Chat
pub mod Serving
pub mod Lifetime
mod Examples
