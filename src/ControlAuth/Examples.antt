-- ===== src/ControlAuth/Examples.antt =====
-- Concrete requests to the control plane, and the theorems of its gate at them.
use dittobench_api.Base.Text.{bytes_of}
use dittobench_api.ControlAuth.{enforce, ControlAuth, Request}

abbrev gate : ControlAuth
gate = record { mode = enforce; token = bytes_of "s3cret" }

abbrev request : Request
request = record { pattern = "GET /v1/runs/{id}"; authorization = bytes_of "  Bearer   s3cret " }
