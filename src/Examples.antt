-- ===== src/Examples.antt =====
-- Small runs of the program on concrete data: the broker pipeline, the event contract, the service,
-- the processes, and the projects of a run.
mod Pipeline
mod Contract
mod Serving
mod Settings
mod Numbers
mod Processes
mod Projects
mod Demos
mod Delivering
mod Requests
mod Commands
mod Sharing
