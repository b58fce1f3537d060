-- ===== src/Lib.antt =====
-- DockerSim, a simulator of clouds and containers on iCanCloud and OMNeT++: a verification library
-- of its data structures and protocols. Paths start at the repository's root.
--
-- The program is a set of OMNeT++ modules that exchange messages. A node of the data centre has
-- a CPU scheduler, a main memory, file systems and a network manager. Applications send requests
-- to them; a module answers, or passes a request on, or cuts it into subrequests and answers when
-- these have come back. Virtual machines share a node, whose ports are translated.
--
-- How the parts correspond to the code:
--   Cpu                 src/Architecture/NodeComponents/OperatingSystems/CPU_Schedulers, which are
--                       icancloud_Base modules (src/Base/icancloud_Base.cc): Cpu.Common has the
--                       computing blocks and searchIdleCPU, Cpu.Fifo the scheduler
--                       CPU_Scheduler_FIFO, Cpu.RoundRobin the scheduler CPU_Scheduler_RR. A state
--                       is a record of the fields of the class and a log of what is sent; one
--                       function stands for each handler, under the name of the method.
--   Splitting           src/Base/Messages/SMS: Splitting.Message has the messages,
--                       Splitting.Request is icancloud_Request, Splitting.System is
--                       SplittingMessageSystem, and Splitting.MainMemory, Splitting.Nfs and
--                       Splitting.Pfs are the systems that cut a request for the main memory, for
--                       NFS and for the parallel file system. Pointers to messages are addresses;
--                       a store says what stands at one, and a deletion is logged.
--   Memory              src/Architecture/NodeComponents/Hardware/Memories/MainMemories/
--                       RAMMemory_BlockModel: Memory.Blocks is the list of cached blocks, and
--                       Memory.BlockModel the module, with its subrequests, its flush queue and its
--                       timers. Memory.BlockModel.Run has its events, and Memory.BlockModel.Late
--                       those after the time at which a flush ends the simulation. The blocks
--                       are list nodes, and each advance of an iterator whose node was erased
--                       is counted. Memory.Account is
--                       the account of application memory in RAMmemory beside it.
--   Network             src/Management/NetworkManager/PortTable.cc, in Network.PortTable,
--                       src/Management/NetworkManager/VirtualIPs.cc, in Network.VirtualIps,
--                       src/Management/NetworkManager/NetworkManager.cc, in Network.Manager, with
--                       its operations on addresses (Addresses) and on port tables (Nodes), and
--                       src/Virtualization/Hypervisor/HypervisorManagers/H_NetworkManager/
--                       LocalNetManager/PAT: Vm_VirtualPort_Cell.cc in Network.PortCell,
--                       User_VirtualPort_Cell.cc in Network.UserCell, and
--                       PortAddressTranslation.cc in Network.Pat, its ports, and in
--                       Network.Pat.Operations, the rest. LocalNetManager.cc, which joins these
--                       with the network manager that all nodes share, is Network.Local.
--   Users               src/Applications/Base/Management/JobQueue.cc, in Users.JobQueue, its copy
--                       src/Virtualization/VirtualMachines/Containers/Container_Management/
--                       Container_JobQueue.cc, in Users.ContainerQueue, and
--                       src/Users/Base/queuesManager.cc, the queues of a user, in Users.Queues.
--   Management          src/Management/DataCenterManagement/Base/RequestsManagement.cc, in
--                       Management.Requests, UserManagement.cc beside it, in Management.Tenants,
--                       DataCenterAPI.cc there, in Management.DataCenter, and
--                       src/Management/MachinesStructure, the sets of machines, in
--                       Management.Machines; src/Management/CloudManagement/Base/
--                       AllocationManagement.cc, the storage nodes of machines, in
--                       Management.Allocation; and src/Base/Request/RequestVM, the requests for
--                       virtual machines, in Management.MachineRequest.
-- Prelude has what they share: numbers, tests, lists and machine words.
--
-- Numbers: an unsigned int is a number below 2 ^ 32, and each operation on it keeps its
-- wrap-around (Prelude.Words); an int that the code compares or counts with is read back from its
-- pattern. Ports and identifiers that may be negative are integers.
--
-- Fuel: handle_message of a scheduler gives the queue of icancloud_Base two rounds more than it
-- has messages, which suffices for every sequence of messages from the initial state;
-- free_port of a port table runs on fuel because its outer loop need not end, and the theorems on
-- it hold for every fuel; free_port_of_vm of the network manager and
-- manage_close_single_connection of the local one pass it on. The search for the table of a node
-- counts its rounds as the code does, and the search for a free port the entries that are left.
-- The loops of moveFromWQ_toRQ (index_loop, and its copy for containers) and getStorageNodesOfVM
-- (storage_nodes_in) take the rounds as an argument, since they need not end: two rounds, and one,
-- are enough where they do, and no number is where they do not.
-- The loops of the splitting systems are recursion on their own counter.
--
-- Not modelled: the OMNeT++ kernel (gates are indices, a send is an entry of a log, a self message
-- is not delayed), what deleted memory holds (a read of it is named in the file concerned), message
-- traces but for the number of the subrequest, debug output and log
-- files, floating-point times and energies, and the parts of the program that build modules at run
-- time. The schedulers take a CPU time above 0.0000001 as a Boolean. In icancloud_Base a module
-- with a latency message waits for it; the schedulers have none.
pub mod Prelude
pub mod Network
pub mod Splitting
pub mod Cpu
pub mod Memory
pub mod Users
pub mod Management
