-- ===== src/System/Start.antt =====
-- transaction/app and transaction/gtm together: how a transaction starts.
use grit.Common.{Text, ℕ, List, map}
use grit.Gtm.{IpandPort, Gtm}
use grit.Gtm
use grit.App.{App}
use grit.App

-- The servers of a type, as the application connects to them.
abbrev pub endpoints : List IpandPort → List (Text × ℕ)
endpoints = map {A = IpandPort} (λ e. (e.ip, e.port))
