-- ===== src/Tests.antt =====
-- Tests of the definitions on concrete inputs, and the properties at inputs that meet their
-- hypotheses.
mod Window
mod Panels
mod Config
mod Catalog
mod Fetch
mod Cache
mod Runner
mod Semaphore
mod TimeRange
mod Resources
mod Query
mod Env
mod LogPanels
mod MetricPanels
mod Pages
