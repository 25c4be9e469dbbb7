-- ===== src/Mock.antt =====
-- services/vaultgateway-mock/app/main.py: the simulated gateway. The file's state is its counters;
-- its clock, its random ids and numbers and its environment variable are parameters.
pub mod Keys
pub mod Service
