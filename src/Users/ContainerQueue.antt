-- ===== src/Users/ContainerQueue.antt =====
-- Container_JobQueue
-- (Virtualization/VirtualMachines/Containers/Container_Management/Container_JobQueue.cc), which is
-- JobQueue for jobs of containers, method by method.
use docker_sim.Prelude.{ℕ, ℤ, Result}
use docker_sim.Users.JobQueue.{
  Job, JobQueue, insert_job, get_job, remove_job, move_job_from_to, move_to_q_dst, move_from_q_src,
  get_index_of_job,
}

abbrev pub ContainerJobQueue : Type 0
ContainerJobQueue = JobQueue

unfoldable pub insert_container_job : Job → ℤ → ContainerJobQueue → ContainerJobQueue
insert_container_job = insert_job

unfoldable pub get_container_job : ℤ → ContainerJobQueue → Result Job
get_container_job = get_job

unfoldable pub remove_container_job : ℤ → ContainerJobQueue → Result ContainerJobQueue
remove_container_job = remove_job

unfoldable pub move_container_job_from_to : ℤ → ℤ → ContainerJobQueue → Result ContainerJobQueue
move_container_job_from_to = move_job_from_to

unfoldable pub move_container_to_q_dst :
    ℤ → ℤ → ContainerJobQueue → ContainerJobQueue → Result (ContainerJobQueue × ContainerJobQueue)
move_container_to_q_dst = move_to_q_dst

unfoldable pub move_container_from_q_src :
    ℤ → ℤ → ContainerJobQueue → ContainerJobQueue → Result (ContainerJobQueue × ContainerJobQueue)
move_container_from_q_src = move_from_q_src

unfoldable pub get_index_of_container_job : ℕ → ContainerJobQueue → Result ℤ
get_index_of_container_job = get_index_of_job
